-- ===== src/FileOps/Sound.antt =====
-- The invariant of the file flowops: whatever they return, the trees of files are sorted by state
-- and the idle count is right.
use filebench_pre_fsl.Base.{
  ◌≡◌, refl, sym, ◌∙◌, arith, ℕ, ◌<◌, inl, inr, Bool, true, false, not, ◌&&◌, Option, none, some,
  if◌then◌else◌, Option-cases, if_elim,
}
use filebench_pre_fsl.Base.Int.{ℤ, pos, negsuc, is_zero}
use filebench_pre_fsl.Fileset.Avl.{Avl, AvlLaws}
use filebench_pre_fsl.Fileset.State.{file, Group, GroupInv}
use filebench_pre_fsl.Fileset.Pick.{PickFlags, Picked, fileset_pick}
use filebench_pre_fsl.Fileset.Pick.Choose.{SameButRotors}
use filebench_pre_fsl.Fileset.Pick.Outcome.{
  PickOutcome, picks, nothing, blocks, locked, fileset_pick_outcome,
}
use filebench_pre_fsl.Fileset.Unbusy.Laws.{fileset_unbusy-GroupInv}
use filebench_pre_fsl.FileOps.{
  Flowop, World, Result, returns, blocked, left_locked, crashed, no_fuel, OpenEnv, set_fse, set_fd,
  builds_path, unbusy_file, fileset_openfile, open_picked, flowoplib_pickfile,
  flowoplib_openfile_common, flowoplib_createfile,
}

module _ (a : Avl) where
  -- Where the flowop returns or blocks, the invariant holds; it follows no NULL pointer,
  -- leaves no lock held and its searches end.
  abbrev pub Sound : Result a.Tree → Type 0
  Sound (returns st w) = GroupInv a w.fs.files
  Sound (blocked w) = GroupInv a w.fs.files
  Sound left_locked = ⊥
  Sound crashed = ⊥
  Sound no_fuel = ⊥

  pub SameButRotors-GroupInv :
      (g g' : Group a.Tree) → SameButRotors g g' → GroupInv a g → GroupInv a g'
  SameButRotors-GroupInv g g' same inv = record {
    in_free = λ i. rw (same.free_tree, same.created, same.entries) (inv.in_free i);
    in_exist = λ i. rw (same.exist_tree, same.created, same.entries) (inv.in_exist i);
    in_noex = λ i. rw (same.noex_tree, same.created, same.entries) (inv.in_noex i);
    idle_counted = rw (same.idle, same.created, same.entries) inv.idle_counted;
  }

  module _ (laws : AvlLaws a) where
    pub unbusy_file-GroupInv :
        (w : World a.Tree) (e : ℕ) (updates new_exist : Bool) (incr : ℤ)
        → e < w.fs.files.created
        → GroupInv a w.fs.files
        → GroupInv a (unbusy_file a w e updates new_exist incr).fs.files
    unfolding unbusy_file
    unbusy_file-GroupInv w e updates new_exist incr lt inv =
        fileset_unbusy-GroupInv a w.fs file e updates new_exist incr laws (λ h. cc) lt inv

    openfile-Sound :
        (w : World a.Tree) (env : OpenEnv) (fd e : ℕ) (creates : Bool)
        → e < w.fs.files.created
        → GroupInv a w.fs.files
        → Sound (fileset_openfile a w env fd e creates)
    unfolding fileset_openfile set_fd
    openfile-Sound w env fd e creates lt inv =
        if_elim Sound (creates && not env.has_parent) (λ _. inv)
          (λ _. elim (Option-cases env.opened) [
            | inl failed ↦
                rw failed
                  (unbusy_file-GroupInv (set_fd w fd (negsuc 0)) e false false (pos 0) lt inv)
            | inr (n, opened) ↦
                rw opened
                  (unbusy_file-GroupInv (set_fd w fd (pos n)) e creates creates (pos 1) lt inv)
          ])

    open_picked-Sound :
        (randomno64 : ℕ → Option ℕ) (flags : PickFlags) (index : ℕ) (w : World a.Tree)
        (env : OpenEnv) (op : Flowop) (fd : ℕ) (creates : Bool) (r : Picked a.Tree)
        → builds_path env.memory op ≡ true
        → flags.unique ≡ false
        → GroupInv a w.fs.files
        → PickOutcome a randomno64 file flags index w.fs r
        → Sound (open_picked a w env op fd creates r)
    unfolding open_picked set_fse
    open_picked-Sound _ flags index w env op fd creates r builds _ inv
          (picks fs' e is lt _ _ grabbed inv' _) =
        rw (is, open_picked, builds)
          (openfile-Sound (set_fse (record w { fs = fs' }) fd (some e)) env fd e creates
            (rw grabbed.created lt) inv')
    open_picked-Sound _ flags index w env op fd creates r _ _ inv (nothing fs' is _ same _) =
        rw is (SameButRotors-GroupInv w.fs.files fs'.files same inv)
    open_picked-Sound _ flags index w env op fd creates r _ _ inv (blocks is _) = rw is inv
    open_picked-Sound _ flags index w env op fd creates r _ plain inv (locked is unique _ _) =
        let clash : true ≡ false = sym unique ∙ plain in ground arith

    pickfile-Sound :
        (randomno64 : ℕ → Option ℕ) (w : World a.Tree) (op : Flowop) (env : OpenEnv) (fd : ℕ)
        (creates noexist : Bool) (tid : ℕ)
        → builds_path env.memory op ≡ true
        → GroupInv a w.fs.files
        → Sound
            (open_picked a w env op fd creates (flowoplib_pickfile a randomno64 w op noexist tid))
    unfolding flowoplib_pickfile
    pickfile-Sound randomno64 w op env fd creates noexist tid builds inv = by_index op.file_index
      where
        flags : Bool → PickFlags
        flags by_index = record { unique = false; noexist = noexist; by_index = by_index }

        by_index :
            (index : Option ℕ)
            → Sound (
                open_picked a w env op fd creates (elim index as (λ _. Picked a.Tree) [
                  | none ↦ fileset_pick a randomno64 w.fs file (flags false) tid 0
                  | some n ↦ fileset_pick a randomno64 w.fs file (flags true) tid n
                ]))
        by_index none =
            open_picked-Sound randomno64 (flags false) 0 w env op fd creates _ builds refl inv
              (fileset_pick_outcome a laws randomno64 file (flags false) 0 w.fs inv tid)
        by_index (some n) =
            open_picked-Sound randomno64 (flags true) n w env op fd creates _ builds refl inv
              (fileset_pick_outcome a laws randomno64 file (flags true) n w.fs inv tid)

    -- Where the fileset has strings for its path and name and malloc gives memory, opening a file
    -- keeps the trees of files sorted by state and the idle count right, whatever the pick and the
    -- file system answer; it follows no NULL pointer, leaves no lock held when it
    -- returns, and its searches end.
    pub flowoplib_openfile_common-Sound :
        (randomno64 : ℕ → Option ℕ) (w : World a.Tree) (env : OpenEnv) (op : Flowop) (fd : ℕ)
        → builds_path env.memory op ≡ true
        → GroupInv a w.fs.files
        → Sound (flowoplib_openfile_common a randomno64 w env op fd)
    unfolding flowoplib_openfile_common
    flowoplib_openfile_common-Sound randomno64 w env op fd builds inv =
        if_elim Sound (not op.has_fileset) (λ _. inv)
          (λ _.
            if_elim Sound (not op.has_name) (λ _. inv)
              (λ _.
                if_elim Sound (not (is_zero (w.thread.tf_fd fd))) (λ _. inv)
                  (λ _.
                    pickfile-Sound randomno64 w op env fd false false
                      (if op.rotatefd then op.utid else 0) builds inv)))

    -- Where the fileset has strings for its path and name and malloc gives memory, creating a file
    -- keeps the trees of files sorted by state and the idle count right, whatever the pick and the
    -- file system answer; it follows no NULL pointer, leaves no lock held when it
    -- returns, and its searches end.
    pub flowoplib_createfile-Sound :
        (randomno64 : ℕ → Option ℕ) (w : World a.Tree) (env : OpenEnv) (op : Flowop)
        → builds_path env.memory op ≡ true
        → GroupInv a w.fs.files
        → Sound (flowoplib_createfile a randomno64 w env op)
    unfolding flowoplib_createfile
    flowoplib_createfile-Sound randomno64 w env op builds inv =
        if_elim Sound (not (is_zero (w.thread.tf_fd op.fdnumber))) (λ _. inv)
          (λ _.
            if_elim Sound (not op.has_fileset) (λ _. inv)
              (λ _.
                if_elim Sound op.readonly (λ _. inv)
                  (λ _. pickfile-Sound randomno64 w op env op.fdnumber true true 0 builds inv)))
