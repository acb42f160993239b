-- ===== src/Fileset.antt =====
-- filebench/fileset.c: the entries of a fileset and the trees that they are picked from.
pub mod Avl
pub mod State
pub mod Idle
pub mod Pick
pub mod Path
pub mod Populate
pub mod Unbusy
