-- ===== src/Tests/Threads.antt =====
-- Runs of the model of filebench/threadflow.c.
use filebench_pre_fsl.Base.{
  ◌≡◌, ◌⊎◌, ℕ, zero, suc, refl, Bool, true, Option, none, some, List, [], ◌∷◌, arith, ◌==◌, ltb,
  if◌then◌else◌,
}
use filebench_pre_fsl.Base.Int.{ℤ, pos, negsuc}
use filebench_pre_fsl.Ipc.{threadflow, Layout, Shm, filebench_sizes}
use filebench_pre_fsl.Ipc.Alloc.{Full}
use filebench_pre_fsl.Flows.{is_master}
use filebench_pre_fsl.Threads.{Threadflow, Threads, threadflow_delete_all, threadflow_define}
use filebench_pre_fsl.Threads.Find.{Found, threadflow_find-threadflow_define}
use filebench_pre_fsl.Threads.Delete.{Ended, end_others, masters, threadflow_delete_all-Ended}
use filebench_pre_fsl.Threads.Init.{int_value, threadflow_init}
use filebench_pre_fsl.Threads.Init.Workers.{Starts}
use filebench_pre_fsl.Threads.Init.Loop.{all_jobs, threadflow_init-Starts}
use filebench_pre_fsl.Tests.Flows.{flows}

-- The attribute tf_memsize is the rest.
abbrev thread : ℤ → Option ℕ → Threadflow ℕ
thread i fops = record {
  tf_name = 116 ∷ [];
  tf_useism = true;
  tf_instance = i;
  tf_running = true;
  tf_abort = Bool.false;
  tf_utid = 0;
  tf_process = 0;
  tf_instances = some 3;
  tf_thrd_fops = fops;
  tf_constmemsize = 5;
  rest = 5;
}

-- The slots below 4 are in use: 3 is a worker with flowops, before the masters 2 and 1.
abbrev shm : Shm
shm = record { memsize = 2; bitmap = λ t n. (if ltb n 4 then 1 else 0); last = λ t. 3 }

abbrev slots : ℕ → Threadflow ℕ
slots (suc (suc (suc zero))) = thread (pos 1) (some 1)
slots n = thread (negsuc 1) none

abbrev link : ℕ → Option ℕ
link (suc (suc (suc zero))) = some 2
link (suc (suc zero)) = some 1
link n = none

abbrev threads : Threads ℕ ℕ
threads = record {
  flows = record flows { ipc = shm };
  shm_threadflow = slots;
  tf_next = link;
  shm_required = 3;
  shm_utid = 7;
  killed = [];
}

abbrev list : List ℕ
list = 3 ∷ 2 ∷ 1 ∷ []

abbrev layout : Layout
layout = record { size_of = λ t. 24; size_of_pointer = 8; base = λ t. 1000 }

abbrev stops : ℕ → Bool
stops t = t == 2

abbrev master : ℕ → Bool
master b = is_master ((slots b).tf_instance)

threadflow_delete_all-Ended_example :
    Ended 4 layout stops
      (threadflow_delete_all 3 4 layout stops (some 3) threads)
      (end_others 4 layout stops master list threads)
      (masters master list)
threadflow_delete_all-Ended_example =
    threadflow_delete_all-Ended 4 layout stops 3 list (some 3) threads (omega arith) (omega arith)
      ((λ e. omega arith, (λ e. omega arith, tt)), ((λ e. omega arith, tt), (tt, tt)))
      (refl, (refl, (refl, refl)))

-- The threads 0 and those from 4 on can be created; tf_instances is 3 for all.
abbrev creates : ℕ → Bool
creates t = ltb t 9

abbrev instances : Option ℕ → ℕ
instances none = 0
instances (some n) = n

threadflow_init-Starts_example :
    Starts
      (λ m. m)
      creates
      6
      threads
      (all_jobs (λ m. int_value (instances (slots m).tf_instances)) (2 ∷ 1 ∷ []))
      (2 ∷ 1 ∷ [])
      (threadflow_init (λ m. m) creates 0 6 instances 2 (some 2) threads)
unfolding filebench_sizes
threadflow_init-Starts_example =
    threadflow_init-Starts (λ m. m) creates 0 6 instances 2 (2 ∷ 1 ∷ []) (some 2) threads
      (omega arith) (omega arith) (refl, (refl, tt)) (refl, (refl, refl))

-- There is a free slot: the first one from 4 on.
threadflow_find-threadflow_define_example :
    ((threadflow_define 0 6 (some (110 ∷ [])) none (some 2) (some 3) threads
        ≡ (none, some 3, threads))
      × Full shm threadflow)
    ⊎ ((t : ℕ) × (u : Threads ℕ ℕ) × (threadflow_define 0 6
            (some (110 ∷ []))
            none
            (some 2)
            (some 3)
            threads
          ≡ (some t, some t, u))
        × Found 0 6 (110 ∷ []) none (some 2) (some 3) threads t u)
unfolding filebench_sizes
threadflow_find-threadflow_define_example =
    threadflow_find-threadflow_define 0 6 (110 ∷ []) none (some 2) (some 3) threads list
      (omega arith) (refl, (refl, (refl, refl))) (refl, (refl, (refl, tt)))
