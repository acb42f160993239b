-- ===== src/FileOps/Dirs/Looks.antt =====
-- How flowoplib_listdir and flowoplib_statfile of filebench/flowop_library.c end.
use filebench_pre_fsl.Base.{ℕ, ◌≡◌, ◌≢◌, ◌⊎◌, false, Option, none, some, List, [], ◌∷◌}
use filebench_pre_fsl.Fileset.Avl.{Avl, AvlLaws}
use filebench_pre_fsl.Fileset.State.{Kind, Fileset, group, SameElsewhere}
use filebench_pre_fsl.Fileset.Pick.Grab.{Grabbed}
use filebench_pre_fsl.Fileset.Pick.Choose.{NoneIdle, AllBusy, plain_flags, SameButRotors}
use filebench_pre_fsl.FileOps.{Status, ok, error, World, returns, blocked}
use filebench_pre_fsl.FileOps.Dirs.{Names, Ask, Done, quiet, flowoplib_getdirpath, dir_bytes}
use filebench_pre_fsl.FileOps.Dirs.HandedBack.{HandedBack}

module _ (a : Avl) (laws : AvlLaws a) where
  module _ (randomno64 : ℕ → Option ℕ) (dirent_size : ℕ) (w : World a.Tree) (n : Names) where
    -- How flowoplib_listdir and the part of flowoplib_statfile that picks a file end.
    pub data Looked (kind : Kind) (call : (ℕ → ℕ) → Ask) (bytes : Option ℕ) (r : Done a.Tree)
        : Type 0 where
      none_left :
          (st : Status) (fs' : Fileset a.Tree)
          → r ≡ quiet (returns st (record w { fs = fs' }))
          → st ≢ ok
          → NoneIdle kind (plain_flags false) (group w.fs kind)
          → SameButRotors (group w.fs kind) (group fs' kind)
          → SameElsewhere kind w.fs fs'
          → Looked kind call bytes r
      waits_for_one : AllBusy (group w.fs kind) → r ≡ quiet (blocked w) → Looked kind call bytes r
      -- the path could not be had, or the directory not opened: the picked entry stays busy and no
      -- operation is counted
      left_busy :
          (fs' : Fileset a.Tree) (e : ℕ)
          → r.result ≡ returns error (record w { fs = fs' })
          → r.endops ≡ []
          → (flowoplib_getdirpath n kind e ≡ some none) ⊎ (bytes ≡ none)
          → Grabbed (group w.fs kind) (group fs' kind) e
          → Looked kind call bytes r
      -- the entry is as before
      looked :
          (fs' : Fileset a.Tree) (e : ℕ) (path : ℕ → ℕ) (count : ℕ)
          → r ≡ record {
            result = returns ok (record w { fs = fs' });
            asks = call path ∷ [];
            endops = count ∷ [];
          }
          → flowoplib_getdirpath n kind e ≡ some (some path)
          → bytes ≡ some count
          → ((group w.fs kind).entries e).busy ≡ false
          → HandedBack a kind false false w.fs fs' e
          → Looked kind call bytes r

    abbrev pub listed_bytes : Option (List ℕ) → Option ℕ
    listed_bytes none = none
    listed_bytes (some lengths) = some (dir_bytes a randomno64 dirent_size lengths)
