-- ===== src/FileOps/Delete.antt =====
-- flowoplib_deletefile.
use filebench_pre_fsl.Base.{
  ℕ, ◌<◌, ◌≡◌, refl, sym, ap, ◌∙◌, inl, inr, ◌⊎◌, Bool, true, false, ◌&&◌, Option, none, some,
  arith, ltb, if◌then◌else◌, Option-cases, if_elim,
}
use filebench_pre_fsl.Base.Int.{pos, negate, exceeds}
use filebench_pre_fsl.Fileset.Avl.{Avl, AvlLaws}
use filebench_pre_fsl.Fileset.Idle.{idle_below_same}
use filebench_pre_fsl.Fileset.State.{file, GroupInv}
use filebench_pre_fsl.Fileset.Pick.{PickFlags, Picked, fileset_pick}
use filebench_pre_fsl.Fileset.Pick.Grab.{Grabbed, Grabbed-GroupInv}
use filebench_pre_fsl.Fileset.Pick.Outcome.{
  PickOutcome, picks, nothing, blocks, locked, fileset_pick_outcome,
}
use filebench_pre_fsl.FileOps.{
  builds_path, Flowop, World, set_fse, wait_for, grab_file, flowoplib_pickfile, delete_entry,
  arbitrary_delete, specific_delete, delete_picked, flowoplib_deletefile,
}
use filebench_pre_fsl.FileOps.Sound.{Sound, SameButRotors-GroupInv, unbusy_file-GroupInv}

module _ (a : Avl) (laws : AvlLaws a) (randomno64 : ℕ → Option ℕ) where
  module _ (memory : Bool) (op : Flowop) (builds : builds_path memory op ≡ true) where
    delete_entry-Sound :
        (w : World a.Tree) (e : ℕ)
        → e < w.fs.files.created
        → GroupInv a w.fs.files
        → Sound a (delete_entry a memory op w e)
    unfolding delete_entry
    delete_entry-Sound w e lt inv =
        if_elim (Sound a)
          (exceeds (w.fs.files.entries e).open_cnt
            (if ltb 0 op.fdnumber && exceeds (w.thread.tf_fd op.fdnumber) 0 then 1 else 0))
          (λ _. unbusy_file-GroupInv a laws w e false false (pos 0) lt inv)
          (λ _. rw builds (
            unbusy_file-GroupInv a laws w e true false (negate (w.fs.files.entries e).open_cnt) lt
              inv))

  grab_file-Grabbed :
      (w : World a.Tree) (e : ℕ) → Grabbed w.fs.files (grab_file true w e).fs.files e
  unfolding grab_file
  grab_file-Grabbed w e = record {
    entries = refl;
    created = refl;
    idle = refl;
    free_tree = refl;
    exist_tree = refl;
    noex_tree = refl;
  }

  wait_for-Sound :
      (w : World a.Tree) (e : ℕ)
      → e < w.fs.files.created
      → GroupInv a w.fs.files
      → Sound a (wait_for w e)
  unfolding wait_for
  wait_for-Sound w e lt inv = record {
    in_free = λ i. inv.in_free i ∙ ground arith;
    in_exist = λ i. inv.in_exist i ∙ ground arith;
    in_noex = λ i. inv.in_noex i ∙ ground arith;
    idle_counted =
        inv.idle_counted
        ∙ ap pos (sym (idle_below_same w.fs.files.created w.fs.files.entries e _ lt refl));
  }

  module _ (memory : Bool) (op : Flowop) (builds : builds_path memory op ≡ true) where
    specific_delete-Sound :
        (w : World a.Tree) (e : ℕ)
        → e < w.fs.files.created
        → GroupInv a w.fs.files
        → Sound a (specific_delete a memory op w e)
    unfolding specific_delete set_fse
    specific_delete-Sound w e lt inv =
        let w' = set_fse w op.fdnumber none in
        if_elim (Sound a) (w.fs.files.entries e).busy (λ _. wait_for-Sound w' e lt inv)
          (λ idle.
            delete_entry-Sound memory op builds (grab_file true w' e) e lt
              (Grabbed-GroupInv a w.fs.files _ e (grab_file-Grabbed w' e) lt idle inv))

    delete_picked-Sound :
        (flags : PickFlags) (index : ℕ) (w : World a.Tree) (r : Picked a.Tree)
        → flags.unique ≡ false
        → GroupInv a w.fs.files
        → PickOutcome a randomno64 file flags index w.fs r
        → Sound a (delete_picked a memory op w r)
    unfolding delete_picked
    delete_picked-Sound flags index w r _ inv (picks fs' e is lt _ _ taken inv' _) =
        rw is
          (delete_entry-Sound memory op builds (record w { fs = fs' }) e (rw taken.created lt) inv')
    delete_picked-Sound flags index w r _ inv (nothing fs' is _ same _) =
        rw is (SameButRotors-GroupInv a w.fs.files fs'.files same inv)
    delete_picked-Sound flags index w r _ inv (blocks is _) = rw is inv
    delete_picked-Sound flags index w r plain inv (locked is unique _ _) =
        let clash : true ≡ false = sym unique ∙ plain in ground arith

    abbrev existing_flags : Bool → PickFlags
    existing_flags by_index = record { unique = false; noexist = false; by_index = by_index }

    arbitrary_delete-Sound :
        (w : World a.Tree)
        → GroupInv a w.fs.files
        → Sound a (arbitrary_delete a randomno64 memory op w)
    unfolding arbitrary_delete flowoplib_pickfile
    arbitrary_delete-Sound w inv =
        if_elim (Sound a) op.has_fileset (λ _. by_index op.file_index) (λ _. inv)
      where
        by_index :
            (index : Option ℕ)
            → Sound a (
                delete_picked a memory op w (elim index as (λ _. Picked a.Tree) [
                  | none ↦ fileset_pick a randomno64 w.fs file (existing_flags false) 0 0
                  | some n ↦ fileset_pick a randomno64 w.fs file (existing_flags true) 0 n
                ]))
        by_index none =
            delete_picked-Sound (existing_flags false) 0 w _ refl inv
              (fileset_pick_outcome a laws randomno64 file (existing_flags false) 0 w.fs inv 0)
        by_index (some n) =
            delete_picked-Sound (existing_flags true) n w _ refl inv
              (fileset_pick_outcome a laws randomno64 file (existing_flags true) n w.fs inv 0)

  -- Where the fileset has strings for its path and name, malloc gives memory, and the descriptor's
  -- entry is in use if it has one, deleting a file keeps the trees of files sorted by state and the
  -- idle count right whatever it returns; it follows no NULL pointer, leaves no lock held when it
  -- returns, and its searches end.
  pub flowoplib_deletefile-Sound :
      (memory : Bool) (w : World a.Tree) (op : Flowop)
      → builds_path memory op ≡ true
      → ((e : ℕ) → w.thread.tf_fse op.fdnumber ≡ some e → e < w.fs.files.created)
      → GroupInv a w.fs.files
      → Sound a (flowoplib_deletefile a randomno64 memory w op)
  unfolding flowoplib_deletefile
  flowoplib_deletefile-Sound memory w op builds in_use inv =
      if_elim (Sound a) (ltb 0 op.fdnumber)
        (λ _. by_entry (Option-cases (w.thread.tf_fse op.fdnumber)))
        (λ _. arbitrary_delete-Sound memory op builds w inv)
    where
      by_entry :
          (w.thread.tf_fse op.fdnumber ≡ none) ⊎ ((e : ℕ) × (w.thread.tf_fse op.fdnumber ≡ some e))
          → Sound a (elim (w.thread.tf_fse op.fdnumber) [
            | none ↦ arbitrary_delete a randomno64 memory op w
            | some e ↦ specific_delete a memory op w e
          ])
      by_entry (inl none_held) = rw none_held (arbitrary_delete-Sound memory op builds w inv)
      by_entry (inr (e, held)) =
          rw held (specific_delete-Sound memory op builds w e (in_use e held) inv)
