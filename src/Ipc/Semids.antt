-- ===== src/Ipc/Semids.antt =====
-- filebench/ipc.c: the table of semaphore numbers (ipc_semidalloc, ipc_semidfree).
use filebench_pre_fsl.Base.{
  ℕ, zero, suc, ◌+◌, ◌≤◌, ◌<◌, ◌≡◌, ◌≢◌, inl, inr, Option, none, some, arith, ◌==◌, if◌then◌else◌,
  update, Bool-cases,
}

-- FILEBENCH_NSEMS
abbrev pub nsems : ℕ
nsems = 128

-- shm_semids and, behind its `nsems` entries, the memory that a search past the end reads.
abbrev pub Semids : Type 0
Semids = ℕ → ℕ

-- The `for` loop, which no bound stops; `none` means that the fuel ran out.
unfoldable pub semid_scan : ℕ → Semids → ℕ → Option ℕ
semid_scan zero ids i = none
semid_scan (suc fuel) ids i =
    let rest = semid_scan fuel ids (i + 1) in if ids i == 1 then rest else some i

pub data SemidResult : Type 0 where
  allocated : ℕ → Semids → SemidResult
  -- filebench_shutdown(1), and what follows where it returns because the run has ended before
  shutdown : ℕ → Semids → SemidResult
  out_of_fuel : SemidResult

unfoldable pub ipc_semidalloc : ℕ → Semids → SemidResult
unfolding semid_scan
ipc_semidalloc fuel ids = elim (semid_scan fuel ids 0) [
  | none ↦ out_of_fuel
  | some i ↦ if i == nsems then shutdown i (update ids i 1) else allocated i (update ids i 1)
]

unfoldable pub ipc_semidfree : Semids → ℕ → Semids
ipc_semidfree ids i = update ids i 0

semid_scan_lem :
    (fuel : ℕ) (ids : Semids) (i k : ℕ)
    → i ≤ k
    → k < i + fuel
    → ids k ≢ 1
    → ((j : ℕ) → i ≤ j → j < k → ids j ≡ 1)
    → semid_scan fuel ids i ≡ some k
unfolding semid_scan
semid_scan_lem zero ids i k h hf free taken = absurd (omega arith)
semid_scan_lem (suc fuel) ids i k h hf free taken = elim (Bool-cases (i == k)) [
  | inl e ↦ let e' : i ≡ k = ground arith in ground arith
  | inr ne ↦
      let used : ids i ≡ 1 = taken i (omega arith) (ground arith) in
      ground (
        arith,
        semid_scan_lem fuel ids (i + 1) k (ground arith) (omega arith) free
            (λ j a b. taken j (omega arith) b),
      )
]

-- Where some number is free, the loop ends within nsems rounds, the lowest free number is handed out, and only its entry
-- changes, to 1.
pub ipc_semidalloc_lowest :
    (fuel : ℕ) (ids : Semids) (k : ℕ)
    → k < nsems
    → nsems ≤ fuel
    → ids k ≢ 1
    → ((j : ℕ) → j < k → ids j ≡ 1)
    → ipc_semidalloc fuel ids ≡ allocated k (update ids k 1)
unfolding ipc_semidalloc
ipc_semidalloc_lowest fuel ids k h hf free taken =
    ground
      (arith, semid_scan_lem fuel ids 0 k (omega arith) (omega arith) free (λ j a b. taken j b))

-- With every number in use the search leaves the table: the run is shut down only if the memory
-- right behind the table does not hold 1, and written even then where filebench_shutdown returns; if `k` ones follow, a number beyond the table is handed
-- out and memory there is written.
pub ipc_semidalloc_overrun :
    (fuel : ℕ) (ids : Semids) (k : ℕ)
    → nsems + k < fuel
    → ((j : ℕ) → j < nsems + k → ids j ≡ 1)
    → ids (nsems + k) ≢ 1
    → ipc_semidalloc fuel ids ≡ (
        if k == 0
        then shutdown nsems (update ids nsems 1)
        else allocated (nsems + k) (update ids (nsems + k) 1))
unfolding ipc_semidalloc
ipc_semidalloc_overrun fuel ids k hf taken free = ground (
  arith,
  semid_scan_lem fuel ids 0 (nsems + k) (omega arith) (omega arith) free (λ j a b. taken j b),
)

-- With every number in use, freeing one and allocating again hands that one out.
pub ipc_semidalloc-ipc_semidfree :
    (fuel : ℕ) (ids : Semids) (k : ℕ)
    → k < nsems
    → nsems ≤ fuel
    → ((j : ℕ) → j < nsems → ids j ≡ 1)
    → ipc_semidalloc fuel (ipc_semidfree ids k) ≡ allocated k (update (ipc_semidfree ids k) k 1)
unfolding ipc_semidfree
ipc_semidalloc-ipc_semidfree fuel ids k h hf taken =
    ipc_semidalloc_lowest fuel (update ids k 0) k h hf (ground arith)
      (λ j p. ground (arith, taken j (omega arith)))
