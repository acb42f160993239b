-- ===== src/Threads/Init.antt =====
-- threadflow_createthread and threadflow_init of filebench/threadflow.c, up to the loop that joins the
-- threads. pthread_create is an argument; where it fails, filebench_shutdown ends a run that has not
-- ended before.
pub mod One
pub mod Jobs
pub mod Workers
pub mod Starts
pub mod Loop
use filebench_pre_fsl.Base.{
  ℕ, zero, suc, ◌+◌, ◌-◌, ◌%◌, ◌^◌, Bool, Option, none, some, if◌then◌else◌, ltb, update,
}
use filebench_pre_fsl.Base.Int.{pos}
use filebench_pre_fsl.Threads.{Threads, threadflow_define_common}

-- The conversion to int, with 0 for all values below 0: the loops run no round for either.
unfoldable pub int_value : ℕ → ℕ
int_value n = if ltb (n % 2 ^ 32) (2 ^ 31) then n % 2 ^ 32 else 0

-- The list and the state after threads were started; `no_slot` is the return of -1, in which
-- shm_threadflow_lock stays held.
pub data Init (R Q : Type 0) : Type 0 where
  inited : (pf_threads : Option ℕ) → Threads R Q → Init R Q
  no_slot : (pf_threads : Option ℕ) → Threads R Q → Init R Q
  shut_down : Init R Q
  out_of_fuel : Init R Q

abbrev pub and_then : {R Q : Type 0} → Init R Q → (Option ℕ → Threads R Q → Init R Q) → Init R Q
and_then (inited head s) next = next head s
and_then (no_slot head s) next = no_slot head s
and_then shut_down next = shut_down
and_then out_of_fuel next = out_of_fuel

-- What avd_get_int gives for tf_memsize, a part of the rest; and `creates`, false of the threads for
-- which pthread_create fails in a run that has not ended before. In a run that has, filebench_shutdown
-- returns, and threadflow_init goes on as after a success, but for the error in the number that it
-- returns, which is left out.
module _ {R Q : Type 0} (memsize : R → ℕ) (creates : ℕ → Bool) where
  unfoldable pub threadflow_createthread : ℕ → Threads R Q → Option (Threads R Q)
  threadflow_createthread t s =
      let th = s.shm_threadflow t in
      let size = memsize th.rest in
      let u : Threads R Q = record s {
        shm_threadflow = update s.shm_threadflow t (record th { tf_constmemsize = size });
        shm_required = if th.tf_useism then (s.shm_required + size) % 2 ^ 64 else s.shm_required;
      } in
      if creates t then some u else none

  -- The thread of what threadflow_define_common gives.
  unfoldable pub create_thread : Option ℕ × Option ℕ × Threads R Q → Init R Q
  unfolding threadflow_createthread
  create_thread (none, head, u) = no_slot head u
  create_thread (some t, head, u) = elim (threadflow_createthread t u) [
    | none ↦ shut_down
    | some v ↦ inited head v
  ]

  module _ (zeros : R) (procflow : ℕ) where
    -- The threadflow of one instance, and its thread.
    unfoldable pub start_one :
        (threadflow : ℕ) → (instance : ℕ) → (pf_threads : Option ℕ) → Threads R Q → Init R Q
    unfolding threadflow_define_common create_thread
    start_one m i head s = create_thread (
        threadflow_define_common zeros procflow (some (s.shm_threadflow m).tf_name) (some m) (pos i)
          head s)

    -- `for (i = 1; i < instances; i++)`, with so many left.
    unfoldable pub start_rest :
        (left i : ℕ) → (threadflow : ℕ) → (pf_threads : Option ℕ) → Threads R Q → Init R Q
    unfolding start_one
    start_rest zero i m head s = inited head s
    start_rest (suc left) i m head s =
        and_then (start_one m (i + 1) head s) (λ head' u. start_rest left (i + 1) m head' u)

    -- What avd_get_int gives for tf_instances.
    module _ (instances : Option ℕ → ℕ) where
      -- The instances from 2 on, and the first instance.
      unfoldable pub start_instances :
          (threadflow : ℕ) → (pf_threads : Option ℕ) → Threads R Q → Init R Q
      unfolding start_rest int_value
      start_instances m head s =
          and_then
            (start_rest (int_value (instances (s.shm_threadflow m).tf_instances) - 1) 1 m head s)
            (λ head' u. start_one m 1 head' u)

      unfoldable pub start_from :
          (fuel : ℕ) → (threadflow pf_threads : Option ℕ) → Threads R Q → Init R Q
      unfolding start_instances
      start_from fuel none head s = inited head s
      start_from zero (some m) head s = out_of_fuel
      start_from (suc fuel) (some m) head s =
          and_then (start_instances m head s) (λ head' u. start_from fuel (u.tf_next m) head' u)

      unfoldable pub threadflow_init : (fuel : ℕ) → (pf_threads : Option ℕ) → Threads R Q → Init R Q
      unfolding start_from
      threadflow_init fuel head s = start_from fuel head head s
