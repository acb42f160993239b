-- ===== src/Descriptors.antt =====
-- flowoplib_fdnum of filebench/flowop_library.c, the choice of an index into tf_fd.
pub mod Rotation
use filebench_pre_fsl.Base.{
  ℕ, ◌+◌, ◌-◌, ◌/◌, Bool, true, false, not, Option, none, some, ltb, leb, ◌==◌, if◌then◌else◌,
}

-- THREADFLOW_MAXFD.
abbrev pub threadflow_maxfd : ℕ
threadflow_maxfd = 128

-- fo_fdnumber, which is not negative, fo_rotatefd, and fs_constentries where there is a fileset.
pub record FdOp : Type 0 where
  pub fdnumber : ℕ
  pub rotatefd : Bool
  pub const_entries : Option ℕ

-- The index, `none` for FILEBENCH_ERROR, and the next tf_fdrotor.
unfoldable pub rotate : (entries rotor : ℕ) → ℕ
rotate entries rotor =
    let first = if rotor == 0 then threadflow_maxfd else rotor in
    let again = if entries == threadflow_maxfd - first then threadflow_maxfd else first in again - 1

unfoldable pub flowoplib_fdnum : FdOp → (rotor : ℕ) → Option ℕ × ℕ
unfolding rotate
flowoplib_fdnum op rotor =
    if ltb 0 op.fdnumber
    then (some op.fdnumber, rotor)
    else if not op.rotatefd
    then (some op.fdnumber, rotor)
    else (elim op.const_entries [
      | none ↦ (none, rotor)
      | some entries ↦
          if ltb (threadflow_maxfd / 2) entries
          then (none, rotor)
          else (some (rotate entries rotor), rotate entries rotor)
    ])
