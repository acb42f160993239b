-- ===== src/Flows/Pass/Calls.antt =====
-- How often a flowop of a pass is called, which abort ends a pass, and which flags a call leaves, apart
-- from the loops of filebench/flowop.c, which agree.
use filebench_pre_fsl.Base.{ℕ, zero, suc, ◌≡◌, refl, sym, ap, ◌∙◌, Bool, true, false, Option}
use filebench_pre_fsl.Flows.Worker.{
  Ret, ret_ok, ret_error, ret_norsc, ret_done, ret_stray, Abort, running, abort_error, abort_done,
  abort_rsrc, abort_fini, Mode, mode_timeout, mode_q1stdone, mode_qalldone, Run, aborted, raise,
  execute, execute_all, execute_inner, inner_all,
}

-- Neither flag is clear.
abbrev pub asked_for : (tf_abort : Bool) → (shm_f_abort : Abort) → Bool
asked_for false running = false
asked_for _ _ = true

-- Every result but FILEBENCH_OK and the unknown numbers tells the thread to stop.
abbrev pub tf_abort_after : Ret → Bool → Bool
tf_abort_after ret_ok old = old
tf_abort_after ret_stray old = old
tf_abort_after _ old = true

-- A missing resource ends the run, as an error or as such, or only this thread, by the run's mode.
abbrev pub shm_f_abort_after : Mode → Ret → Abort → Abort
shm_f_abort_after mode ret_ok old = old
shm_f_abort_after mode ret_done old = abort_done
shm_f_abort_after mode_q1stdone ret_norsc old = abort_rsrc
shm_f_abort_after mode_qalldone ret_norsc old = old
shm_f_abort_after mode _ old = abort_error

-- An unknown number is FILEBENCH_OK for a composite flowop.
abbrev pub heard : Ret → Ret
heard ret_stray = ret_ok
heard ret = ret

module _ {W : Type 0} where
  abbrev pub asked : Run W → Bool
  asked r = asked_for r.tf_abort r.shm_f_abort

  abbrev pub flags_after : Mode → Ret → Run W → Run W
  flags_after mode ret r = record r {
    tf_abort = tf_abort_after ret r.tf_abort;
    shm_f_abort = shm_f_abort_after mode ret r.shm_f_abort;
  }

  asked_for_lem :
      (b : Bool) (a : Abort) (r : Run W)
      → r.tf_abort ≡ b
      → r.shm_f_abort ≡ a
      → aborted r ≡ asked_for b a
  unfolding aborted
  asked_for_lem true a r e e' = rw (e, aborted) refl
  asked_for_lem false running r e e' = rw (e, e', aborted) refl
  asked_for_lem false abort_error r e e' = rw (e, e', aborted) refl
  asked_for_lem false abort_done r e e' = rw (e, e', aborted) refl
  asked_for_lem false abort_rsrc r e e' = rw (e, e', aborted) refl
  asked_for_lem false abort_fini r e e' = rw (e, e', aborted) refl

  pub asked_lem : (r : Run W) → aborted r ≡ asked r
  asked_lem r = asked_for_lem r.tf_abort r.shm_f_abort r refl refl

  pub flags_after_lem :
      (mode : Mode) (ret : Ret) (r : Run W) → raise mode ret r ≡ flags_after mode ret r
  unfolding raise
  flags_after_lem mode ret_ok r = refl
  flags_after_lem mode ret_error r = refl
  flags_after_lem mode_timeout ret_norsc r = refl
  flags_after_lem mode_q1stdone ret_norsc r = refl
  flags_after_lem mode_qalldone ret_norsc r = refl
  flags_after_lem mode ret_done r = refl
  flags_after_lem mode ret_stray r = refl

  -- A call, where all before it returned FILEBENCH_OK.
  abbrev pub unless_stopped : (Run W → Ret × Run W) → Ret × Run W → Ret × Run W
  unless_stopped f (ret_ok, r) = f r
  unless_stopped f (ret, r) = (ret, r)

  -- So many calls.
  abbrev pub times : ℕ → (Run W → Ret × Run W) → Run W → Ret × Run W
  times zero f r = (ret_ok, r)
  times (suc n) f r = unless_stopped f (times n f r)

  times-first :
      (n : ℕ) (f : Run W → Ret × Run W) (r : Run W)
      → times (suc n) f r ≡ unless_stopped (times n f) (f r)
  times-first zero f r = last (f r)
    where
      last : (x : Ret × Run W) → x ≡ unless_stopped (λ r'. (ret_ok, r')) x
      last (ret_ok, r') = refl
      last (ret_error, r') = refl
      last (ret_norsc, r') = refl
      last (ret_done, r') = refl
      last (ret_stray, r') = refl
  times-first (suc n) f r = ap (unless_stopped f) (times-first n f r) ∙ inner (f r)
    where
      inner :
          (x : Ret × Run W)
          → unless_stopped f (unless_stopped (times n f) x) ≡ unless_stopped (times (suc n) f) x
      inner (ret_ok, r') = refl
      inner (ret_error, r') = refl
      inner (ret_norsc, r') = refl
      inner (ret_done, r') = refl
      inner (ret_stray, r') = refl

  module _ (fo_func : ℕ → Run W → Ret × Run W) (iters : ℕ → Run W → ℕ × Run W)
      (fo_exec_next : ℕ → Option ℕ) where
    -- The calls of a flowop of the main loop, as often as fo_iters says before the first.
    abbrev pub calls : ℕ → Run W → Ret × Run W
    calls fo r = times (iters fo r).0 (fo_func fo) (iters fo r).1

    abbrev pub heard_call : ℕ → Run W → Ret × Run W
    heard_call fo r = (heard (fo_func fo r).0, (fo_func fo r).1)

    -- Those of a flowop in a composite one.
    abbrev pub inner_calls : ℕ → Run W → Ret × Run W
    inner_calls fo r = times (iters fo r).0 (heard_call fo) (iters fo r).1

    execute_lem :
        (n fo : ℕ) (r : Run W) → execute fo_func iters fo_exec_next n fo r ≡ times n (fo_func fo) r
    unfolding execute
    execute_lem zero fo r = refl
    execute_lem (suc n) fo r =
        by_call (λ r'. execute_lem n fo r') (fo_func fo r) ∙ sym (times-first n (fo_func fo) r)
      where
        by_call :
            ((r' : Run W) → execute fo_func iters fo_exec_next n fo r' ≡ times n (fo_func fo) r')
            → (x : Ret × Run W)
            → elim (x.0) as (λ _. Ret × Run W) [
              | ret_ok ↦ execute fo_func iters fo_exec_next n fo x.1
              | stop ↦ (stop, x.1)
            ]
              ≡ unless_stopped (times n (fo_func fo)) x
        by_call h (ret_ok, r') = h r'
        by_call h (ret_error, r') = refl
        by_call h (ret_norsc, r') = refl
        by_call h (ret_done, r') = refl
        by_call h (ret_stray, r') = refl

    execute_inner_lem :
        (n fo : ℕ) (r : Run W)
        → execute_inner fo_func iters fo_exec_next n fo r ≡ times n (heard_call fo) r
    unfolding execute_inner
    execute_inner_lem zero fo r = refl
    execute_inner_lem (suc n) fo r =
        by_call (λ r'. execute_inner_lem n fo r') (fo_func fo r)
        ∙ sym (times-first n (heard_call fo) r)
      where
        by_call :
            ((r' : Run W)
              → execute_inner fo_func iters fo_exec_next n fo r' ≡ times n (heard_call fo) r')
            → (x : Ret × Run W)
            → elim (x.0) as (λ _. Ret × Run W) [
              | ret_done ↦ (ret_done, x.1)
              | ret_norsc ↦ (ret_norsc, x.1)
              | ret_error ↦ (ret_error, x.1)
              | _ ↦ execute_inner fo_func iters fo_exec_next n fo x.1
            ]
              ≡ unless_stopped (times n (heard_call fo)) (heard x.0, x.1)
        by_call h (ret_ok, r') = h r'
        by_call h (ret_error, r') = refl
        by_call h (ret_norsc, r') = refl
        by_call h (ret_done, r') = refl
        by_call h (ret_stray, r') = h r'

    pub calls_lem : (fo : ℕ) (r : Run W) → execute_all fo_func iters fo_exec_next fo r ≡ calls fo r
    unfolding execute_all
    calls_lem fo r = execute_lem (iters fo r).0 fo (iters fo r).1

    pub inner_calls_lem :
        (fo : ℕ) (r : Run W) → inner_all fo_func iters fo_exec_next fo r ≡ inner_calls fo r
    unfolding inner_all
    inner_calls_lem fo r = execute_inner_lem (iters fo r).0 fo (iters fo r).1
