-- ===== src/Tests/Worlds.antt =====
-- A fileset with one existing file, in trees of the kind of Tree.
use filebench_pre_fsl.Base.{ℕ, refl, ◌∙◌, true, false, none, some, arith, ◌==◌, if◌then◌else◌}
use filebench_pre_fsl.Base.Int.{pos}
use filebench_pre_fsl.Fileset.State.{Entry, Group, Fileset, idle_below, GroupInv}
use filebench_pre_fsl.FileOps.{World}
use filebench_pre_fsl.Tests.Tree.{Bounded, bounded, mem_holds}

abbrev pub no_nodes : Bounded
no_nodes = record { bound = 0; has = λ i. false }

abbrev pub one_node : Bounded
one_node = record { bound = 1; has = λ i. true }

-- An existing file that is open so many times.
abbrev pub open_file : ℕ → Entry
open_file n = record {
  free = false;
  exists = true;
  busy = false;
  reusing = false;
  thrd_waiting = false;
  open_cnt = pos n;
}

abbrev pub one_file : ℕ → Group Bounded
one_file n = record {
  entries = λ i. open_file n;
  created = 1;
  listed = true;
  const_entries = 1;
  idle = pos 1;
  free_tree = no_nodes;
  exist_tree = one_node;
  noex_tree = no_nodes;
  exrotor = λ i. 0;
  nerotor = 0;
}

abbrev pub no_files : Group Bounded
no_files = record {
  entries = λ i. open_file 0;
  created = 0;
  listed = false;
  const_entries = 0;
  idle = pos 0;
  free_tree = no_nodes;
  exist_tree = no_nodes;
  noex_tree = no_nodes;
  exrotor = λ i. 0;
  nerotor = 0;
}

-- Descriptor 3 of the thread is open on the file if it is open at all.
abbrev pub world : ℕ → World Bounded
world n = record {
  fs = record { files = one_file n; dirs = no_files; leafdirs = no_files };
  thread = record {
    tf_fd = λ fd. if fd == 3 then pos n else pos 0;
    tf_fse = λ fd. if fd == 3 then some 0 else none;
  };
}

abbrev pub two_nodes : Bounded
two_nodes = record { bound = 2; has = λ i. true }

abbrev pub two_files : Fileset Bounded
two_files = record {
  files = record (one_file 0) { created = 2; idle = pos 2; exist_tree = two_nodes };
  dirs = no_files;
  leafdirs = no_files;
}

-- A file that does not exist.
abbrev pub missing_file : Group Bounded
missing_file = record (one_file 0) {
  entries = λ i. record (open_file 0) { exists = false };
  exist_tree = no_nodes;
  noex_tree = one_node;
}

pub missing_file-GroupInv : GroupInv bounded missing_file
unfolding idle_below
missing_file-GroupInv = record {
  in_free = λ i. mem_holds no_nodes i ∙ ground arith;
  in_exist = λ i. mem_holds no_nodes i ∙ ground arith;
  in_noex = λ i. mem_holds one_node i ∙ ground arith;
  idle_counted = refl;
}

pub two_files-GroupInv : GroupInv bounded two_files.files
unfolding idle_below
two_files-GroupInv = record {
  in_free = λ i. mem_holds no_nodes i ∙ ground arith;
  in_exist = λ i. mem_holds two_nodes i ∙ ground arith;
  in_noex = λ i. mem_holds no_nodes i ∙ ground arith;
  idle_counted = refl;
}

pub one_file-GroupInv : (n : ℕ) → GroupInv bounded (one_file n)
unfolding idle_below
one_file-GroupInv n = record {
  in_free = λ i. mem_holds no_nodes i ∙ ground arith;
  in_exist = λ i. mem_holds one_node i ∙ ground arith;
  in_noex = λ i. mem_holds no_nodes i ∙ ground arith;
  idle_counted = refl;
}

pub no_files-GroupInv : GroupInv bounded no_files
unfolding idle_below
no_files-GroupInv = record {
  in_free = λ i. mem_holds no_nodes i ∙ ground arith;
  in_exist = λ i. mem_holds no_nodes i ∙ ground arith;
  in_noex = λ i. mem_holds no_nodes i ∙ ground arith;
  idle_counted = refl;
}
