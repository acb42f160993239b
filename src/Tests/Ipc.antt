-- ===== src/Tests/Ipc.antt =====
-- Examples for Ipc.
use filebench_pre_fsl.Base.{◌+◌, ◌≡◌, refl, ◌⊎◌, some, [], ◌∷◌, arith, update, ◌==◌, if◌then◌else◌}
use filebench_pre_fsl.Ipc.{
  procflow, avd, Shm, ipc_malloc, Layout, address, ipc_free, mark, scan, filebench_sizes,
}
use filebench_pre_fsl.Ipc.Alloc.{Allocated, Exhausted, ipc_malloc_outcome, ipc_free-ipc_malloc}
use filebench_pre_fsl.Ipc.Strings.{Region, Stored, ipc_stralloc, ipc_stralloc-Stored}
use filebench_pre_fsl.Ipc.Semids.{
  Semids, nsems, ipc_semidalloc, allocated, shutdown, ipc_semidalloc_overrun,
}

-- A map for two procflows, the first taken.
abbrev shm : Shm
shm = record { memsize = 2; bitmap = λ t i. if i == 0 then 1 else 0; last = λ t. 0 }

abbrev layout : Layout
layout = record {
  size_of = λ t. (elim t [ avd ↦ 16 | _ ↦ 24 ]);
  size_of_pointer = 8;
  base = λ t. 1000;
}

ipc_malloc_outcome_example :
    Allocated shm procflow (ipc_malloc shm procflow)
    ⊎ Exhausted shm procflow (ipc_malloc shm procflow)
unfolding filebench_sizes
ipc_malloc_outcome_example = ipc_malloc_outcome shm procflow (omega arith)

ipc_free-ipc_malloc_example :
    (ipc_free layout (mark shm procflow 1) procflow (some (address layout procflow 1))).bitmap
      procflow 1
    ≡ shm.bitmap procflow 1
unfolding filebench_sizes ipc_malloc scan
ipc_free-ipc_malloc_example =
    ipc_free-ipc_malloc layout shm (mark shm procflow 1) procflow 1 (λ e. cc) (omega arith)
      (omega arith) refl procflow 1

abbrev region : Region
region = record { next = 0; bytes = λ i. 0 }

abbrev stored : Region
stored = record { next = 2; bytes = update (λ i. 0) 0 65 }

ipc_stralloc-Stored_example : Stored 4 region stored (65 ∷ []) 0
unfolding ipc_stralloc
ipc_stralloc-Stored_example =
    ipc_stralloc-Stored 4 region stored (65 ∷ []) 0 (λ k le. refl) ((λ e. omega arith), tt) refl

abbrev none_taken : Semids
none_taken = λ i. 0

abbrev all_taken : Semids
all_taken = λ i. if i == 129 then 0 else 1

ipc_semidalloc_overrun_example : ipc_semidalloc 200 all_taken ≡ (
    if 1 == 0
    then shutdown nsems (update all_taken nsems 1)
    else allocated (nsems + 1) (update all_taken (nsems + 1) 1))
ipc_semidalloc_overrun_example =
    ipc_semidalloc_overrun 200 all_taken 1 (omega arith) (λ j lt. ground arith) (λ e. ground arith)
