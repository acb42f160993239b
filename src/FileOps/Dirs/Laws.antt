-- ===== src/FileOps/Dirs/Laws.antt =====
-- What flowoplib_makedir and flowoplib_removedir of filebench/flowop_library.c leave behind, on every path.
use filebench_pre_fsl.Base.{
  ap, ◌∙◌, ◌≢◌, ℕ, ◌<◌, ◌≡◌, refl, inl, inr, Bool, true, false, not, Option, none, some, [], ◌∷◌,
  arith, if_elim, Option-cases,
}
use filebench_pre_fsl.Fileset.Avl.{Avl, AvlLaws}
use filebench_pre_fsl.Fileset.State.{leafdir, Entry, Fileset, GroupInv, SameElsewhere}
use filebench_pre_fsl.Fileset.Pick.{Picked}
use filebench_pre_fsl.Fileset.Pick.Grab.{Grabbed}
use filebench_pre_fsl.Fileset.Pick.Choose.{wanted, NoneIdle, AllBusy, plain_flags, SameButRotors}
use filebench_pre_fsl.Fileset.Pick.Outcome.{
  PickOutcome, picks, nothing, blocks, locked, fileset_pick_outcome,
}
use filebench_pre_fsl.FileOps.{ok, error, norsc, World, Flowop, returns, blocked}
use filebench_pre_fsl.FileOps.Dirs.{
  Names, Ask, mkdir, rmdir, Done, quiet, flowoplib_getdirpath, flowoplib_pickleafdir, change_dir,
  flowoplib_makedir, flowoplib_removedir,
}
use filebench_pre_fsl.FileOps.Dirs.HandedBack.{HandedBack, Grabbed-HandedBack}

module _ (a : Avl) (laws : AvlLaws a) where
  -- How flowoplib_makedir (`new_exist`) and flowoplib_removedir end.
  pub data DirChange (call : (ℕ → ℕ) → Ask) (new_exist : Bool) (w : World a.Tree) (n : Names)
      (has_fileset : Bool) (r : Done a.Tree) : Type 0 where
    no_fileset :
        has_fileset ≡ false
        → r ≡ quiet (returns error w)
        → DirChange call new_exist w n has_fileset r
    -- none that is not busy is left: nothing but rotors has changed
    none_left :
        (fs' : Fileset a.Tree)
        → r ≡ quiet (returns norsc (record w { fs = fs' }))
        → NoneIdle leafdir (plain_flags new_exist) w.fs.leafdirs
        → SameButRotors w.fs.leafdirs fs'.leafdirs
        → SameElsewhere leafdir w.fs fs'
        → DirChange call new_exist w n has_fileset r
    waits_for_one :
        AllBusy w.fs.leafdirs → r ≡ quiet (blocked w) → DirChange call new_exist w n has_fileset r
    -- the path could not be had, and the picked directory stays busy
    left_busy :
        (fs' : Fileset a.Tree) (e : ℕ)
        → r ≡ quiet (returns error (record w { fs = fs' }))
        → flowoplib_getdirpath n leafdir e ≡ some none
        → Grabbed w.fs.leafdirs fs'.leafdirs e
        → DirChange call new_exist w n has_fileset r
    -- a directory that did not exist as asked, and was not busy, now does and is not busy
    changed :
        (fs' : Fileset a.Tree) (e : ℕ) (path : ℕ → ℕ)
        → r ≡ record {
          result = returns ok (record w { fs = fs' });
          asks = call path ∷ [];
          endops = 0 ∷ [];
        }
        → flowoplib_getdirpath n leafdir e ≡ some (some path)
        → e < w.fs.leafdirs.created
        → (w.fs.leafdirs.entries e).exists ≡ not new_exist
        → (w.fs.leafdirs.entries e).busy ≡ false
        → HandedBack a leafdir true new_exist w.fs fs' e
        → DirChange call new_exist w n has_fileset r

  wanted_exists :
      (noexist by_index : Bool) (x : Entry)
      → wanted leafdir (record { unique = false; noexist = noexist; by_index = by_index }) x ≡ true
      → x.exists ≡ not noexist
  wanted_exists true by_index x h = ground arith
  wanted_exists false by_index x h = ground arith

  module _ (randomno64 : ℕ → Option ℕ) (dirent_size : ℕ) (w : World a.Tree) (n : Names) where
    change_dir-DirChange :
        (call : (ℕ → ℕ) → Ask) (new_exist has_fileset by_index : Bool) (index : ℕ)
        (r : Picked a.Tree)
        → ((e : ℕ) → e < w.fs.leafdirs.created → flowoplib_getdirpath n leafdir e ≢ none)
        → PickOutcome a randomno64 leafdir
            (record { unique = false; noexist = new_exist; by_index = by_index })
            index
            w.fs
            r
        → DirChange call new_exist w n has_fileset
            (change_dir a randomno64 dirent_size w n call new_exist r)
    unfolding change_dir
    change_dir-DirChange call new_exist has_fileset by_index index r enough
          (picks fs' e is lt want idle taken inv' same) =
        elim (Option-cases (flowoplib_getdirpath n leafdir e)) [
          | inl no_fuel ↦ absurd (enough e lt no_fuel)
          | inr (answer, given) ↦ elim (Option-cases answer) [
            | inl no_path ↦
                let given' : flowoplib_getdirpath n leafdir e ≡ some none =
                  given ∙ ap some no_path in
                rw (is, given', change_dir) (left_busy fs' e refl given' taken)
            | inr (path, found) ↦
                let given' : flowoplib_getdirpath n leafdir e ≡ some (some path) =
                  given ∙ ap some found in
                rw (is, given', change_dir)
                  (changed _ e path refl given' lt
                    (wanted_exists new_exist by_index (w.fs.leafdirs.entries e) want) idle
                    (Grabbed-HandedBack a laws leafdir w.fs fs' e true new_exist (inr (λ h. cc)) lt
                      taken inv' same))
          ]
        ]
    change_dir-DirChange call new_exist has_fileset by_index index r enough
          (nothing fs' is why rotors same) =
        rw is (none_left fs' refl why rotors same)
    change_dir-DirChange call new_exist has_fileset by_index index r enough (blocks is busy) =
        rw is (waits_for_one busy refl)
    change_dir-DirChange call new_exist has_fileset by_index index r enough (locked is unique _ _) =
        absurd (cc)

    pickleafdir-DirChange :
        (call : (ℕ → ℕ) → Ask) (new_exist has_fileset : Bool) (op : Flowop)
        → ((e : ℕ) → e < w.fs.leafdirs.created → flowoplib_getdirpath n leafdir e ≢ none)
        → GroupInv a w.fs.leafdirs
        → DirChange call new_exist w n has_fileset (
            change_dir a randomno64 dirent_size w n call new_exist
              (flowoplib_pickleafdir a randomno64 dirent_size w op new_exist))
    unfolding flowoplib_pickleafdir
    pickleafdir-DirChange call new_exist has_fileset op enough inv =
        elim (Option-cases op.file_index) [
          | inl e ↦
              rw (e, flowoplib_pickleafdir)
                (change_dir-DirChange call new_exist has_fileset false 0 _ enough
                  (fileset_pick_outcome a laws randomno64 leafdir _ 0 w.fs inv 0))
          | inr (index, e) ↦
              rw (e, flowoplib_pickleafdir)
                (change_dir-DirChange call new_exist has_fileset true index _ enough
                  (fileset_pick_outcome a laws randomno64 leafdir _ index w.fs inv 0))
        ]

    -- On well-formed leaf directories, with fuel enough for their paths, flowoplib_makedir and
    -- flowoplib_removedir end in one of five ways. Without a fileset they return an error; where all
    -- directories that do not exist, or do, are busy, FILEBENCH_NORSC, and rotors change at most;
    -- they wait where every directory is busy; where the path cannot be had they return an error and
    -- leave a picked directory busy; else they make or remove, by its path, exactly one directory
    -- that did not exist or did, and was not busy, count one operation, and leave it existing or not
    -- as asked, not busy, with trees and idle count right and the other kinds of entries as they
    -- were.
    pub makedir_removedir_outcome :
        (op : Flowop)
        → ((e : ℕ) → e < w.fs.leafdirs.created → flowoplib_getdirpath n leafdir e ≢ none)
        → GroupInv a w.fs.leafdirs
        → DirChange mkdir true w n op.has_fileset
            (flowoplib_makedir a randomno64 dirent_size w n op)
          × DirChange rmdir false w n op.has_fileset
              (flowoplib_removedir a randomno64 dirent_size w n op)
    unfolding flowoplib_makedir flowoplib_removedir
    makedir_removedir_outcome op enough inv = (
      if_elim (DirChange mkdir true w n op.has_fileset) (not op.has_fileset)
          (λ h. no_fileset (ground arith) refl)
          (λ _. pickleafdir-DirChange mkdir true op.has_fileset op enough inv),
      if_elim (DirChange rmdir false w n op.has_fileset) (not op.has_fileset)
          (λ h. no_fileset (ground arith) refl)
          (λ _. pickleafdir-DirChange rmdir false op.has_fileset op enough inv),
    )
