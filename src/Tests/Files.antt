-- ===== src/Tests/Files.antt =====
-- Examples for Fileset and FileOps.
use filebench_pre_fsl.Base.{
  ℕ, zero, suc, ◌≡◌, refl, true, false, ◌&&◌, Option, none, some, arith, inl, ◌≢◌,
}
use filebench_pre_fsl.Base.Int.{pos, ◌+ℤ◌, is_one}
use filebench_pre_fsl.Fileset.State.{file, leafdir, GroupInv, SameElsewhere, set_group, Fileset}
use filebench_pre_fsl.Fileset.Populate.{populate}
use filebench_pre_fsl.Fileset.Populate.Inv.{Fresh, populate-Fresh}
use filebench_pre_fsl.Fileset.Pick.{
  PickFlags, fileset_pick, fileset_find_entry, grab, choose, pick_from, pick_tree, pick_scan,
  next_or_first, picked,
}
use filebench_pre_fsl.Fileset.Pick.Outcome.{PickOutcome, fileset_pick_outcome}
use filebench_pre_fsl.Fileset.Pick.Exclusive.{fileset_pick_exclusive, fileset_pick_succeeds}
use filebench_pre_fsl.Tests.Worlds.{
  two_files, two_files-GroupInv, one_file, no_files, world, one_file-GroupInv, no_files-GroupInv,
}
use filebench_pre_fsl.Fileset.Unbusy.{fileset_unbusy}
use filebench_pre_fsl.Fileset.Unbusy.Laws.{
  OnlyEntry, released, flagged, fileset_unbusy-GroupInv, fileset_unbusy_outcome,
}
use filebench_pre_fsl.FileOps.{
  builds_path, ok, Flowop, World, returns, OpenEnv, flowoplib_openfile_common, flowoplib_createfile,
  flowoplib_deletefile, flowoplib_closefile,
}
use filebench_pre_fsl.FileOps.Sound.{
  Sound, flowoplib_openfile_common-Sound, flowoplib_createfile-Sound,
}
use filebench_pre_fsl.FileOps.Close.{Closable, closefile_last}
use filebench_pre_fsl.FileOps.Delete.{flowoplib_deletefile-Sound}
use filebench_pre_fsl.Tests.Tree.{Bounded, bounded, bounded-AvlLaws}

-- A random number that is always 0.
abbrev random : ℕ → Option ℕ
random max = some 0

abbrev existing : PickFlags
existing = record { unique = false; noexist = false; by_index = false }

fileset_pick_outcome_example :
    PickOutcome bounded random file existing 0
      (world 0).fs
      (fileset_pick bounded random (world 0).fs file existing 0 0)
fileset_pick_outcome_example =
    fileset_pick_outcome bounded bounded-AvlLaws random file existing 0 (world 0).fs
      (one_file-GroupInv 0) 0

abbrev by_index : PickFlags
by_index = record { unique = false; noexist = false; by_index = true }

-- Both picks ask for entry 0; the second finds it busy and takes entry 1.
abbrev first_pick : Fileset Bounded
first_pick = set_group two_files file (grab two_files.files 0)

abbrev second_pick : Fileset Bounded
second_pick = set_group first_pick file (grab first_pick.files 1)

fileset_pick_exclusive_example : zero ≢ suc zero
unfolding fileset_pick choose pick_from pick_tree fileset_find_entry pick_scan next_or_first grab
    ◌+ℤ◌
fileset_pick_exclusive_example =
    fileset_pick_exclusive bounded bounded-AvlLaws random file by_index by_index 0 1 0 0 two_files
      first_pick second_pick 0 1 two_files-GroupInv refl refl

fileset_pick_succeeds_example :
    (fs' : Fileset Bounded) × (e : ℕ) × (fileset_pick bounded random two_files file existing 0 0
      ≡ picked fs' e)
fileset_pick_succeeds_example =
    fileset_pick_succeeds bounded bounded-AvlLaws random file existing 0 0 two_files 1
      two_files-GroupInv refl (omega arith) refl refl (inl refl)

fileset_unbusy-GroupInv_example :
    GroupInv bounded (fileset_unbusy bounded (world 1).fs file 0 true false (pos 1)).0.files
fileset_unbusy-GroupInv_example =
    fileset_unbusy-GroupInv bounded (world 1).fs file 0 true false (pos 1) bounded-AvlLaws (λ e. cc)
      (omega arith) (one_file-GroupInv 1)

fileset_unbusy_outcome_example :
    OnlyEntry
      (one_file 1)
      (fileset_unbusy bounded (world 1).fs file 0 true false (pos 1)).0.files
      0
      (released (flagged true false ((one_file 1).entries 0)) (pos 1))
    × SameElsewhere file
        (world 1).fs
        (fileset_unbusy bounded (world 1).fs file 0 true false (pos 1)).0
    × ((fileset_unbusy bounded (world 1).fs file 0 true false (pos 1)).1.thrd_wait
        ≡ (false && false))
    × ((fileset_unbusy bounded (world 1).fs file 0 true false (pos 1)).1.idle
        ≡ (false && is_one (pos 1 +ℤ pos 1)))
fileset_unbusy_outcome_example =
    fileset_unbusy_outcome bounded (world 1).fs file 0 true false (pos 1)

populate-Fresh_example : Fresh bounded (populate bounded leafdir 3 no_files) 3
populate-Fresh_example =
    populate-Fresh bounded bounded-AvlLaws leafdir no_files 3
      (record { created = refl; idle = refl; inv = no_files-GroupInv })

abbrev env : OpenEnv
env = record { memory = true; has_parent = true; opened = some 7 }

abbrev refusing : OpenEnv
refusing = record { memory = true; has_parent = true; opened = none }

abbrev op : Flowop
op = record {
  has_fileset = true;
  has_name = true;
  has_path = true;
  readonly = false;
  rotatefd = false;
  utid = 1;
  fdnumber = 3;
  file_index = none;
}

flowoplib_openfile_common-Sound_example :
    Sound bounded (flowoplib_openfile_common bounded random (world 0) env op 3)
unfolding builds_path
flowoplib_openfile_common-Sound_example =
    flowoplib_openfile_common-Sound bounded bounded-AvlLaws random (world 0) env op 3 refl
      (one_file-GroupInv 0)

flowoplib_createfile-Sound_example :
    Sound bounded (flowoplib_createfile bounded random (world 0) env op)
unfolding builds_path
flowoplib_createfile-Sound_example =
    flowoplib_createfile-Sound bounded bounded-AvlLaws random (world 0) env op refl
      (one_file-GroupInv 0)

flowoplib_deletefile-Sound_example :
    Sound bounded (flowoplib_deletefile bounded random true (world 1) op)
unfolding builds_path
flowoplib_deletefile-Sound_example =
    flowoplib_deletefile-Sound bounded bounded-AvlLaws random true (world 1) op refl
      (λ e held. (let same : zero ≡ e = cc in omega arith)) (one_file-GroupInv 1)

closable : (n : ℕ) → Closable bounded (world (suc n)) op 0
closable n = record { is_open = ground arith; holds = refl; in_use = omega arith; idle = refl }

closefile_last_example :
    (w' : World Bounded) × (flowoplib_closefile bounded (world 1) op ≡ returns ok w')
    × GroupInv bounded w'.fs.files
    × (w'.thread.tf_fd 3 ≡ pos 0)
    × ((w'.fs.files.entries 0).open_cnt ≡ pos 0)
closefile_last_example =
    closefile_last bounded (world 1) op 0 (closable 0) (one_file-GroupInv 1) refl
