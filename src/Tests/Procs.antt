-- ===== src/Tests/Procs.antt =====
-- Runs of the model of filebench/procflow.c.
use filebench_pre_fsl.Base.{
  ℕ, zero, suc, ◌≡◌, refl, not, ◌||◌, ◌⊎◌, Bool, true, false, Option, none, some, List, [], ◌∷◌,
  arith, ◌==◌,
}
use filebench_pre_fsl.Base.Int.{ℤ, pos, negsuc, exceeds}
use filebench_pre_fsl.Ipc.{Layout}
use filebench_pre_fsl.Flows.{is_master}
use filebench_pre_fsl.Flows.Worker.{running}
use filebench_pre_fsl.Procs.{Procflow, Procs, is_fini, procflow_shutdown}
use filebench_pre_fsl.Procs.Shutdown.{Ended, end_procs, over, stopping, procflow_shutdown_outcome}
use filebench_pre_fsl.Threads.Delete.{masters}

abbrev process : ℤ → Procflow ℕ
process i = record {
  pf_name = 112 ∷ [];
  pf_instance = i;
  pf_instances = some 0;
  pf_running = true;
  rest = 0;
}

-- The processes 3 and 2, before the master 1.
abbrev slots : ℕ → Procflow ℕ
slots (suc zero) = process (negsuc 1)
slots n = process (pos 1)

abbrev link : ℕ → Option ℕ
link (suc (suc (suc zero))) = some 2
link (suc (suc zero)) = some 1
link n = none

abbrev procs : Procs ℕ
procs = record {
  ipc = record { memsize = 8; bitmap = λ t n. 1; last = λ t. 3 };
  shm_procflow = slots;
  pf_next = link;
  shm_proclist = some 3;
  shm_procs_running = pos 2;
  shm_f_abort = running;
  signalled = [];
}

abbrev layout : Layout
layout = record { size_of = λ t. 24; size_of_pointer = 8; base = λ t. 1000 }

-- Each stops after one second.
abbrev runs : ℕ → ℕ → Bool
runs p slept = slept == 0

abbrev list : List ℕ
list = 3 ∷ 2 ∷ 1 ∷ []

abbrev master : ℕ → Bool
master p = is_master ((slots p).pf_instance)

procflow_shutdown_outcome_example :
    ((procflow_shutdown 3 3 layout runs procs ≡ some procs)
      × ((not (exceeds (pos 2) 0) || is_fini running) ≡ true))
    ⊎ (((not (exceeds (pos 2) 0) || is_fini running) ≡ false)
        × Ended
            (procflow_shutdown 3 3 layout runs procs)
            (over (end_procs layout runs master 3 list (stopping procs)))
            (masters master list))
procflow_shutdown_outcome_example =
    procflow_shutdown_outcome layout runs 3 3 list procs (omega arith) (omega arith)
      ((λ e. omega arith, (λ e. omega arith, tt)), ((λ e. omega arith, tt), (tt, tt)))
      (refl, (refl, (refl, refl)))
