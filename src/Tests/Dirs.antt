-- ===== src/Tests/Dirs.antt =====
-- Runs of the model of the directory flowops: directory 0 of each kind is the entry 1 of Paths, below
-- the root.
use filebench_pre_fsl.Base.{
  ℕ, zero, suc, ◌<◌, ◌≡◌, ◌≢◌, refl, true, false, Option, none, some, [], ◌∷◌, ◌++◌, arith, update,
}
use filebench_pre_fsl.Ipc.Strings.{Holds}
use filebench_pre_fsl.Strings.Copy.{take}
use filebench_pre_fsl.Fileset.State.{Kind, leafdir}
use filebench_pre_fsl.Fileset.Path.Laws.{full_path}
use filebench_pre_fsl.FileOps.{World, Flowop}
use filebench_pre_fsl.FileOps.Dirs.{
  Names, mkdir, rmdir, flowoplib_getdirpath, flowoplib_makedir, flowoplib_removedir, dir_bytes,
}
use filebench_pre_fsl.FileOps.Dirs.Paths.{flowoplib_getdirpath_lem}
use filebench_pre_fsl.FileOps.Dirs.Laws.{DirChange, makedir_removedir_outcome}
use filebench_pre_fsl.Tests.Tree.{Bounded, bounded, bounded-AvlLaws}
use filebench_pre_fsl.Tests.Worlds.{world, one_file, one_file-GroupInv}
use filebench_pre_fsl.Tests.Paths.{fse_parent, letter, blank, fse_path, letter-Holds}

abbrev names : Names
names = record {
  fs_path = some (update blank 0 116);
  fs_name = some (update blank 0 115);
  number = λ kind e. suc e;
  fse_parent = fse_parent;
  fse_path = fse_path;
  maxpathlen = 4096;
  fuel = 9;
  full_path = blank;
  path = blank;
  pathtmp = blank;
  s = blank;
}

flowoplib_getdirpath_lem_example :
    (r : ℕ → ℕ) × (flowoplib_getdirpath names leafdir 0 ≡ some (some r))
    × Holds r 0 (take 4095 (116 ∷ [] ++ 47 ∷ [] ++ 115 ∷ [] ++ full_path letter 1 (0 ∷ [])))
flowoplib_getdirpath_lem_example =
    flowoplib_getdirpath_lem names leafdir 0 4095 (update blank 0 116) (update blank 0 115)
      (116 ∷ []) (115 ∷ []) letter (0 ∷ []) refl (omega arith) refl (refl, (λ e. omega arith), refl)
      refl (refl, (λ e. omega arith), refl) letter-Holds (refl, refl) (omega arith)

abbrev random : ℕ → Option ℕ
random max = some 0

abbrev dir_world : World Bounded
dir_world = record {
  fs = record { files = one_file 0; dirs = one_file 0; leafdirs = one_file 0 };
  thread = (world 0).thread;
}

abbrev flowop : Flowop
flowop = record {
  has_fileset = true;
  has_name = true;
  has_path = true;
  readonly = false;
  rotatefd = false;
  utid = 0;
  fdnumber = 0;
  file_index = none;
}

some_path : (kind : Kind) → (path : ℕ → ℕ) × (flowoplib_getdirpath names kind 0 ≡ some (some path))
some_path kind =
    let (path, is, _) =
      flowoplib_getdirpath_lem names kind 0 4095 (update blank 0 116) (update blank 0 115)
        (116 ∷ []) (115 ∷ []) letter (0 ∷ []) refl (omega arith) refl
        (refl, (λ e. omega arith), refl) refl (refl, (λ e. omega arith), refl) letter-Holds
        (refl, refl) (omega arith) in
    (path, is)

enough : (kind : Kind) (e : ℕ) → e < 1 → flowoplib_getdirpath names kind e ≢ none
enough kind zero lt no_fuel = let found = (some_path kind).1 in cc
enough kind (suc e) lt no_fuel = omega arith

-- The directory exists: none can be made, and it can be removed.
makedir_removedir_outcome_example :
    DirChange bounded bounded-AvlLaws mkdir true dir_world names true
      (flowoplib_makedir bounded random 280 dir_world names flowop)
    × DirChange bounded bounded-AvlLaws rmdir false dir_world names true
        (flowoplib_removedir bounded random 280 dir_world names flowop)
makedir_removedir_outcome_example =
    makedir_removedir_outcome bounded bounded-AvlLaws random 280 dir_world names flowop
      (enough leafdir) (one_file-GroupInv 0)

two_entries : dir_bytes bounded random 280 (1 ∷ 2 ∷ []) ≡ 561
unfolding dir_bytes
two_entries = refl
