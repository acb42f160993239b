-- ===== src/Fileset/Unbusy.antt =====
-- filebench/fileset.c: fileset_move_entry and fileset_unbusy. The proofs are in the children.
pub mod Inv
pub mod Laws
use filebench_pre_fsl.Base.{ℕ, Bool, true, false, not, ◌&&◌, if◌then◌else◌, update}
use filebench_pre_fsl.Base.Int.{ℤ, pos, ◌+ℤ◌, is_one}
use filebench_pre_fsl.Fileset.Avl.{Avl}
use filebench_pre_fsl.Fileset.State.{
  Kind, file, dir, leafdir, Entry, Group, Fileset, group, set_group,
}

-- The condition variables signalled: fs_thrd_wait_cv, and the idle one of the kind.
pub record Wakeups : Type 0 where
  pub thrd_wait : Bool
  pub idle : Bool

-- The three trees that an entry moves between.
pub record Trees (T : Type 0) : Type 0 where
  pub free_tree : T
  pub exist_tree : T
  pub noex_tree : T

abbrev pub trees : {T : Type 0} → Group T → Trees T
trees g = record { free_tree = g.free_tree; exist_tree = g.exist_tree; noex_tree = g.noex_tree }

module _ (a : Avl) where
  -- fileset_move_entry, the source and the destination after it
  unfoldable pub fileset_move_entry : a.Tree → a.Tree → ℕ → a.Tree × a.Tree
  fileset_move_entry src dst i = (a.avl_remove src i, a.avl_add dst i)

  -- The trees after `update_exist` for the entry `e` of index `i`.
  unfoldable pub move_trees : Bool → Entry → ℕ → Trees a.Tree → Trees a.Tree
  unfolding fileset_move_entry
  move_trees true e i t =
      if e.free
      then (let (src, dst) = fileset_move_entry t.free_tree t.exist_tree i in
          record t { free_tree = src; exist_tree = dst })
      else if not e.exists
      then (let (src, dst) = fileset_move_entry t.noex_tree t.exist_tree i in
          record t { noex_tree = src; exist_tree = dst })
      else t
  move_trees false e i t =
      if e.free
      then (let (src, dst) = fileset_move_entry t.free_tree t.noex_tree i in
          record t { free_tree = src; noex_tree = dst })
      else if e.exists
      then (let (src, dst) = fileset_move_entry t.exist_tree t.noex_tree i in
          record t { exist_tree = src; noex_tree = dst })
      else t

  -- Only files and leaf directories are in such trees.
  unfoldable pub move_by_kind : Kind → Bool → Entry → ℕ → Trees a.Tree → Trees a.Tree
  unfolding move_trees
  move_by_kind dir new_exist e i t = t
  move_by_kind _ new_exist e i t = move_trees new_exist e i t

  -- FSE_FREE and FSE_EXISTS after `update_exist`.
  unfoldable pub flag_exist : Bool → Entry → Entry
  flag_exist true e =
      if e.free
      then record e { free = false; exists = true }
      else if not e.exists
      then record e { exists = true }
      else e
  flag_exist false e =
      if e.free
      then record e { free = false; exists = false }
      else if e.exists
      then record e { exists = false }
      else e

  unfoldable pub update_exist : Kind → Bool → Group a.Tree → ℕ → Group a.Tree
  unfolding move_by_kind flag_exist
  update_exist kind new_exist g i =
      let e = g.entries i in
      let t = move_by_kind kind new_exist e i (trees g) in
      record g {
        entries = update g.entries i (flag_exist new_exist e);
        free_tree = t.free_tree;
        exist_tree = t.exist_tree;
        noex_tree = t.noex_tree;
      }

  -- The open count, and then the release of an entry that is busy.
  unfoldable pub release : Group a.Tree → ℕ → ℤ → Group a.Tree × Wakeups
  release g i open_cnt_incr =
      let e = g.entries i in
      let counted = record e { open_cnt = e.open_cnt +ℤ open_cnt_incr } in
      if e.busy
      then (
        record g {
          entries = update g.entries i (record counted { busy = false; thrd_waiting = false });
          idle = g.idle +ℤ pos 1;
        },
        record { thrd_wait = e.thrd_waiting; idle = is_one (g.idle +ℤ pos 1) },
      )
      else (
        record g { entries = update g.entries i counted },
        record { thrd_wait = false; idle = false },
      )

  -- `updates` is the argument update_exist, `new_exist` is new_exist_val.
  unfoldable pub unbusy_group :
      Kind → Group a.Tree → ℕ → (updates new_exist : Bool) → ℤ → Group a.Tree × Wakeups
  unbusy_group kind g i updates new_exist open_cnt_incr =
      release (if updates then update_exist kind new_exist g i else g) i open_cnt_incr

  unfoldable pub fileset_unbusy :
      Fileset a.Tree → Kind → ℕ → (updates new_exist : Bool) → ℤ → Fileset a.Tree × Wakeups
  fileset_unbusy fs kind i updates new_exist open_cnt_incr =
      let (g, woken) = unbusy_group kind (group fs kind) i updates new_exist open_cnt_incr in
      (set_group fs kind g, woken)
