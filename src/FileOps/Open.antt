-- ===== src/FileOps/Open.antt =====
-- What an open leaves behind when the file system refuses.
use filebench_pre_fsl.Fileset.Avl.{Avl}
