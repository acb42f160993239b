-- ===== src/FileOps.antt =====
-- filebench/flowop_library.c: the flowops that open, create, close and delete files, with
-- fileset_openfile of filebench/fileset.c. A thread's descriptors and the flowop refer to one
-- fileset; raw devices are left out, as in a build without HAVE_RAW_SUPPORT.
pub mod Sound
pub mod Close
pub mod Delete
pub mod Open
pub mod Io
pub mod Dirs
use filebench_pre_fsl.Base.{
  ℕ, zero, suc, Bool, true, false, not, ◌&&◌, Option, none, some, ltb, ◌==◌, if◌then◌else◌, update,
}
use filebench_pre_fsl.Base.Int.{ℤ, pos, negsuc, ◌+ℤ◌, negate, is_zero, is_one, exceeds}
use filebench_pre_fsl.Fileset.Avl.{Avl}
use filebench_pre_fsl.Fileset.State.{Kind, file, Entry, Group, Fileset}
use filebench_pre_fsl.Fileset.Pick.{
  PickFlags, Picked, picked, empty, waits, null_locked, null_fault, out_of_fuel, fileset_pick,
}
use filebench_pre_fsl.Fileset.Unbusy.{fileset_unbusy}

-- FILEBENCH_OK, FILEBENCH_ERROR and FILEBENCH_NORSC.
pub data Status : Type 0 where
  ok error norsc : Status

-- tf_fd, whose fd_ptr and fd_num are one union: 0 is a NULL fd_ptr, and the -1 of a failed open is
-- not. And tf_fse.
pub record Threadflow : Type 0 where
  pub tf_fd : ℕ → ℤ
  pub tf_fse : ℕ → Option ℕ

-- The attributes that these flowops read: whether there is a fileset, and strings for its fs_name and
-- fs_path (avd_get_str gives NULL where there is none). `file_index` is the index that fo_fileindex gives, a
-- floating-point computation, where the flowop has one.
pub record Flowop : Type 0 where
  pub has_fileset : Bool
  pub has_name : Bool
  pub has_path : Bool
  pub readonly : Bool
  pub rotatefd : Bool
  pub utid : ℕ
  pub fdnumber : ℕ
  pub file_index : Option ℕ

pub record World (T : Type 0) : Type 0 where
  pub fs : Fileset T
  pub thread : Threadflow

pub data Result (T : Type 0) : Type 0 where
  returns : Status → World T → Result T
  -- in pthread_cond_wait
  blocked : World T → Result T
  -- error returned with fs_pick_lock held
  left_locked : Result T
  -- a NULL pointer followed
  crashed : Result T
  no_fuel : Result T

-- The path of an entry can be built: fb_strlcpy and fb_strlcat get strings for fs_path and fs_name,
-- and `memory` says that the malloc of fileset_resolvepath, which is not checked, gives some.
unfoldable pub builds_path : (memory : Bool) → Flowop → Bool
builds_path memory op = op.has_path && op.has_name && memory

-- What malloc and the file system answer: whether the parent directory is there or could be made, and the
-- descriptor that FB_OPEN gives, `none` for -1.
pub record OpenEnv : Type 0 where
  pub memory : Bool
  pub has_parent : Bool
  pub opened : Option ℕ

unfoldable pub set_fse : {T : Type 0} → World T → ℕ → Option ℕ → World T
set_fse w fd e = record w { thread = record (w.thread) { tf_fse = update w.thread.tf_fse fd e } }

unfoldable pub set_fd : {T : Type 0} → World T → ℕ → ℤ → World T
set_fd w fd n = record w { thread = record (w.thread) { tf_fd = update w.thread.tf_fd fd n } }

-- `file->fse_flags |= FSE_THRD_WAITNG` and the wait that follows.
unfoldable pub wait_for : {T : Type 0} → World T → ℕ → Result T
wait_for w e =
    let g = w.fs.files in
    blocked (record w {
      fs = record (w.fs) {
        files = record g {
          entries = update g.entries e (record (g.entries e) { thrd_waiting = true });
        };
      };
    })

-- FSE_BUSY without fileset_pick; `counted` says whether fs_idle_files is decremented.
unfoldable pub grab_file : {T : Type 0} → Bool → World T → ℕ → World T
grab_file counted w e =
    let g = w.fs.files in
    record w {
      fs = record (w.fs) {
        files = record g {
          entries = update g.entries e (record (g.entries e) { busy = true });
          idle = if counted then g.idle +ℤ negsuc 0 else g.idle;
        };
      };
    }

module _ (a : Avl) where
  unfoldable pub unbusy_file : World a.Tree → ℕ → (updates new_exist : Bool) → ℤ → World a.Tree
  unbusy_file w e updates new_exist incr = record w {
    fs = (fileset_unbusy a w.fs file e updates new_exist incr).0;
  }

  -- fileset_openfile from its path on. When the parent directories cannot be made it returns without unbusying.
  unfoldable pub fileset_openfile :
      World a.Tree → OpenEnv → (fd e : ℕ) → (creates : Bool) → Result a.Tree
  unfolding unbusy_file set_fd
  fileset_openfile w env fd e creates =
      if creates && not env.has_parent then returns error w else (elim env.opened [
        | none ↦ returns error (unbusy_file (set_fd w fd (negsuc 0)) e false false (pos 0))
        | some n ↦ returns ok (unbusy_file (set_fd w fd (pos n)) e creates creates (pos 1))
      ])

  -- What follows the pick in flowoplib_openfile_common and flowoplib_createfile, with the path that
  -- fileset_openfile builds first.
  unfoldable pub open_picked :
      World a.Tree → OpenEnv → Flowop → ℕ → Bool → Picked a.Tree → Result a.Tree
  unfolding fileset_openfile set_fse builds_path
  open_picked w env op fd creates (picked fs' e) =
      if builds_path env.memory op
      then fileset_openfile (set_fse (record w { fs = fs' }) fd (some e)) env fd e creates
      else crashed
  open_picked w env op fd creates (empty fs') = returns norsc (record w { fs = fs' })
  open_picked w env op fd creates waits = blocked w
  open_picked w env op fd creates null_locked = left_locked
  open_picked w env op fd creates null_fault = crashed
  open_picked w env op fd creates out_of_fuel = no_fuel

  module _ (randomno64 : ℕ → Option ℕ) where
    -- flowoplib_pickfile, where the flowop has a fileset.
    unfoldable pub flowoplib_pickfile : World a.Tree → Flowop → Bool → ℕ → Picked a.Tree
    flowoplib_pickfile w op noexist tid = elim op.file_index [
      | none ↦
          fileset_pick a randomno64 w.fs file
            (record { unique = false; noexist = noexist; by_index = false }) tid 0
      | some index ↦
          fileset_pick a randomno64 w.fs file
            (record { unique = false; noexist = noexist; by_index = true }) tid index
    ]

    unfoldable pub flowoplib_openfile_common : World a.Tree → OpenEnv → Flowop → ℕ → Result a.Tree
    unfolding flowoplib_pickfile open_picked
    flowoplib_openfile_common w env op fd =
        if not op.has_fileset
        then returns error w
        else if not op.has_name
        then returns error w
        else if not (is_zero (w.thread.tf_fd fd))
        then returns error w
        else open_picked w env op fd false
            (flowoplib_pickfile w op false (if op.rotatefd then op.utid else 0))

    unfoldable pub flowoplib_createfile : World a.Tree → OpenEnv → Flowop → Result a.Tree
    unfolding flowoplib_pickfile open_picked
    flowoplib_createfile w env op =
        if not (is_zero (w.thread.tf_fd op.fdnumber))
        then returns error w
        else if not op.has_fileset
        then returns error w
        else if op.readonly
        then returns error w
        else open_picked w env op op.fdnumber true (flowoplib_pickfile w op true 0)

  -- From the grab on in flowoplib_closefile.
  unfoldable pub close_entry : World a.Tree → (fd e : ℕ) → World a.Tree
  unfolding unbusy_file set_fd grab_file
  close_entry w fd e =
      set_fd
        (unbusy_file (grab_file (is_one (w.fs.files.entries e).open_cnt) w e) e false false
          (negsuc 0))
        fd (pos 0)

  unfoldable pub flowoplib_closefile : World a.Tree → Flowop → Result a.Tree
  unfolding close_entry wait_for
  flowoplib_closefile w op =
      let fd = op.fdnumber in
      if is_zero (w.thread.tf_fd fd) then returns error w else (elim (w.thread.tf_fse fd) [
        | none ↦ crashed
        | some e ↦
            if (w.fs.files.entries e).busy then wait_for w e else returns ok (close_entry w fd e)
      ])

  -- From the open counts on in flowoplib_deletefile, the entry being busy. The path is built only
  -- where the file is to be deleted.
  unfoldable pub delete_entry : (memory : Bool) → Flowop → World a.Tree → (e : ℕ) → Result a.Tree
  unfolding unbusy_file builds_path
  delete_entry memory op w e =
      let fd = op.fdnumber in
      let open_cnt = (w.fs.files.entries e).open_cnt in
      let allowed = (if ltb 0 fd && exceeds (w.thread.tf_fd fd) 0 then 1 else 0) in
      if exceeds open_cnt allowed
      then returns ok (unbusy_file w e false false (pos 0))
      else if builds_path memory op
      then returns ok (unbusy_file w e true false (negate open_cnt))
      else crashed

  -- With a valid descriptor: its own entry is deleted, once it is not busy.
  unfoldable pub specific_delete : (memory : Bool) → Flowop → World a.Tree → (e : ℕ) → Result a.Tree
  unfolding delete_entry set_fse wait_for grab_file
  specific_delete memory op w e =
      let w' = set_fse w op.fdnumber none in
      if (w'.fs.files.entries e).busy
      then wait_for w' e
      else delete_entry memory op (grab_file true w' e) e

  -- Otherwise an entry is picked.
  unfoldable pub delete_picked :
      (memory : Bool) → Flowop → World a.Tree → Picked a.Tree → Result a.Tree
  unfolding delete_entry
  delete_picked memory op w (picked fs' e) = delete_entry memory op (record w { fs = fs' }) e
  delete_picked memory op w (empty fs') = returns norsc (record w { fs = fs' })
  delete_picked memory op w waits = blocked w
  delete_picked memory op w null_locked = left_locked
  delete_picked memory op w null_fault = crashed
  delete_picked memory op w out_of_fuel = no_fuel

  unfoldable pub arbitrary_delete :
      (ℕ → Option ℕ) → (memory : Bool) → Flowop → World a.Tree → Result a.Tree
  unfolding delete_picked
  arbitrary_delete randomno64 memory op w =
      if op.has_fileset
      then delete_picked memory op w (flowoplib_pickfile randomno64 w op false 0)
      else returns error w

  unfoldable pub flowoplib_deletefile :
      (ℕ → Option ℕ) → (memory : Bool) → World a.Tree → Flowop → Result a.Tree
  unfolding specific_delete arbitrary_delete
  flowoplib_deletefile randomno64 memory w op =
      if ltb 0 op.fdnumber
      then (elim (w.thread.tf_fse op.fdnumber) [
        | none ↦ arbitrary_delete randomno64 memory op w
        | some e ↦ specific_delete memory op w e
      ])
      else arbitrary_delete randomno64 memory op w
