-- ===== src/Flows/Worker.antt =====
-- flowop_start and flowop_composite of filebench/flowop.c: how a worker thread, and a composite
-- flowop, call the flowops of a list. What a flowop does, and how often it is to be called, are
-- arguments; clocks and the set-up before the main loop are left out.
use filebench_pre_fsl.Base.{
  ℕ, zero, suc, ◌+◌, Bool, true, false, not, ◌||◌, Option, none, some, if◌then◌else◌,
}

-- FILEBENCH_OK, FILEBENCH_ERROR, FILEBENCH_NORSC and FILEBENCH_DONE, and any other number.
pub data Ret : Type 0 where
  ret_ok ret_error ret_norsc ret_done ret_stray : Ret

-- shm_f_abort, 0 or one of the FILEBENCH_ABORT numbers.
pub data Abort : Type 0 where
  running abort_error abort_done abort_rsrc abort_fini : Abort

-- shm_rmode
pub data Mode : Type 0 where
  mode_timeout mode_q1stdone mode_qalldone : Mode

-- tf_abort is tested for 0 only; tf_stats.fs_count counts the passes through the list.
pub record Run (W : Type 0) : Type 0 where
  pub world : W
  pub tf_abort : Bool
  pub shm_f_abort : Abort
  pub fs_count : ℕ

abbrev pub is_set : Abort → Bool
is_set running = false
is_set _ = true

unfoldable pub aborted : {W : Type 0} → Run W → Bool
aborted r = r.tf_abort || is_set r.shm_f_abort

-- What is done after a call that did not return FILEBENCH_OK.
unfoldable pub raise : {W : Type 0} → Mode → Ret → Run W → Run W
raise mode ret_ok r = r
raise mode ret_error r = record r { tf_abort = true; shm_f_abort = abort_error }
raise mode ret_norsc r = record r {
  tf_abort = true;
  shm_f_abort = elim mode [
    | mode_q1stdone ↦ abort_rsrc
    | mode_qalldone ↦ r.shm_f_abort
    | mode_timeout ↦ abort_error
  ];
}
raise mode ret_done r = record r { tf_abort = true; shm_f_abort = abort_done }
raise mode ret_stray r = record r { shm_f_abort = abort_error }

-- `threadflow->tf_stats.fs_count++`
abbrev pub count_pass : {W : Type 0} → Run W → Run W
count_pass r = record r { fs_count = r.fs_count + 1 }

-- One turn of the main loop.
pub data Turn (W : Type 0) : Type 0 where
  stopped : Run W → Turn W
  goes_on : (flowop : Option ℕ) → Run W → Turn W
  -- "flowop_read null flowop", and the thread function returns
  null_flowop : Run W → Turn W

-- `fo_func` is (*fo_func)(threadflow, flowop), `iters` is (int)avd_get_int(fo_iters) with 0 for a
-- negative count.
module _ {W : Type 0} (fo_func : ℕ → Run W → Ret × Run W) (iters : ℕ → Run W → ℕ × Run W)
    (fo_exec_next : ℕ → Option ℕ) where
  -- The inner loop, up to the first call that does not return FILEBENCH_OK.
  unfoldable pub execute : (count flowop : ℕ) → Run W → Ret × Run W
  execute zero fo r = (ret_ok, r)
  execute (suc count) fo r =
      let (ret, r') = fo_func fo r in elim ret [ ret_ok ↦ execute count fo r' | stop ↦ (stop, r') ]

  -- `count = …; for (i = 0; i < count; i++) …`
  unfoldable pub execute_all : (flowop : ℕ) → Run W → Ret × Run W
  unfolding execute
  execute_all fo r = let (count, r') = iters fo r in execute count fo r'

  -- The next flowop, or the first one and another pass counted.
  unfoldable pub advance : (tf_thrd_fops : Option ℕ) → (flowop : ℕ) → Run W → Option ℕ × Run W
  advance fops fo r = elim (fo_exec_next fo) [ none ↦ (fops, count_pass r) | some n ↦ (some n, r) ]

  unfoldable pub after_calls :
      Mode → (tf_thrd_fops : Option ℕ) → (flowop : ℕ) → Ret × Run W → Turn W
  unfolding advance raise
  after_calls mode fops fo (ret_ok, r) = let (next, r') = advance fops fo r in goes_on next r'
  after_calls mode fops fo (ret, r) =
      let (next, r') = advance fops fo (raise mode ret r) in stopped r'

  -- A turn that sleeps, while statistics are gathered or the processes are not all there, changes
  -- nothing.
  unfoldable pub main_turn :
      Mode
      → (shm_bequiet shm_procs_running : Bool) → (tf_thrd_fops flowop : Option ℕ) → Run W
      → Turn W
  unfolding aborted execute_all after_calls
  main_turn mode bequiet procs_running fops cursor r =
      if aborted r
      then stopped r
      else if bequiet || not procs_running
      then goes_on cursor r
      else elim cursor [
        | none ↦ null_flowop r
        | some fo ↦ after_calls mode fops fo (execute_all fo r)
      ]

  -- Turns that do not sleep.
  unfoldable pub main_turns : Mode → (turns : ℕ) → (tf_thrd_fops flowop : Option ℕ) → Run W → Turn W
  unfolding main_turn
  main_turns mode zero fops cursor r = goes_on cursor r
  main_turns mode (suc turns) fops cursor r = elim (main_turn mode false true fops cursor r) [
    | goes_on next r' ↦ main_turns mode turns fops next r'
    | stopped r' ↦ stopped r'
    | null_flowop r' ↦ null_flowop r'
  ]

  -- The inner loop of flowop_composite, which goes on after a number that is none of the four.
  unfoldable pub execute_inner : (count flowop : ℕ) → Run W → Ret × Run W
  execute_inner zero fo r = (ret_ok, r)
  execute_inner (suc count) fo r =
      let (ret, r') = fo_func fo r in
      elim ret [
        | ret_done ↦ (ret_done, r')
        | ret_norsc ↦ (ret_norsc, r')
        | ret_error ↦ (ret_error, r')
        | _ ↦ execute_inner count fo r'
      ]

  unfoldable pub inner_all : (flowop : ℕ) → Run W → Ret × Run W
  unfolding execute_inner
  inner_all fo r = let (count, r') = iters fo r in execute_inner count fo r'

  -- The loop of flowop_composite, on fuel, from an inner flowop on.
  unfoldable pub composite_from :
      (fuel : ℕ) → (inner_flowop : Option ℕ) → Run W → Option (Ret × Run W)
  unfolding aborted inner_all
  composite_from fuel none r = some (ret_ok, r)
  composite_from zero (some fo) r = none
  composite_from (suc fuel) (some fo) r =
      if aborted r then some (ret_done, r) else elim ((inner_all fo r).0) [
        | ret_ok ↦ composite_from fuel (fo_exec_next fo) (inner_all fo r).1
        | ret ↦ some (ret, (inner_all fo r).1)
      ]

  unfoldable pub flowop_composite :
      (fuel : ℕ) → (fo_comp_fops : Option ℕ) → Run W → Option (Ret × Run W)
  unfolding composite_from
  flowop_composite fuel fo_comp_fops r = composite_from fuel fo_comp_fops r
