-- ===== src/Flows/Pass.antt =====
-- flowop_start and flowop_composite of filebench/flowop.c, against passes through a plain list.
pub mod Calls
use filebench_pre_fsl.Base.{
  ℕ, zero, suc, ◌+◌, ◌≤◌, ◌≡◌, refl, ap, ◌∙◌, Bool, true, false, Option, some, List, [], ◌∷◌,
  length, if◌then◌else◌, arith,
}
use filebench_pre_fsl.Flows.Chain.{Chain}
use filebench_pre_fsl.Flows.Pass.Calls.{
  asked, flags_after, calls, inner_calls, asked_lem, inner_calls_lem,
}
use filebench_pre_fsl.Flows.Worker.{
  Ret, ret_ok, ret_error, ret_norsc, ret_done, ret_stray, Mode, Run, aborted, raise, count_pass,
  Turn, stopped, goes_on, null_flowop, execute_all, main_turns, inner_all, composite_from,
  flowop_composite,
}

module _ {W : Type 0} (fo_func : ℕ → Run W → Ret × Run W) (iters : ℕ → Run W → ℕ × Run W)
    (fo_exec_next : ℕ → Option ℕ) where
  -- A pass of a composite flowop: the flowops of a list in order, up to an abort or the first that
  -- ends the pass.
  unfoldable pub inner_pass : List ℕ → Run W → Ret × Run W
  inner_pass [] r = (ret_ok, r)
  inner_pass (fo ∷ list) r =
      if asked r then (ret_done, r) else elim ((inner_calls fo_func iters fo_exec_next fo r).0) [
        | ret_ok ↦ inner_pass list (inner_calls fo_func iters fo_exec_next fo r).1
        | ret ↦ (ret, (inner_calls fo_func iters fo_exec_next fo r).1)
      ]

  -- What the loop does with the calls of an inner flowop, and what a pass does.
  abbrev loop_step :
      Bool → Run W → Ret × Run W → (Run W → Option (Ret × Run W)) → Option (Ret × Run W)
  loop_step stop r x rest =
      if stop then some (ret_done, r) else elim (x.0) [ ret_ok ↦ rest x.1 | ret ↦ some (ret, x.1) ]

  abbrev pass_step : Bool → Run W → Ret × Run W → (Run W → Ret × Run W) → Ret × Run W
  pass_step stop r x rest =
      if stop then (ret_done, r) else elim (x.0) [ ret_ok ↦ rest x.1 | ret ↦ (ret, x.1) ]

  step_lem :
      (stop : Bool) (r : Run W) (x : Ret × Run W) (rest : Run W → Option (Ret × Run W))
      (pass : Run W → Ret × Run W)
      → ((r' : Run W) → rest r' ≡ some (pass r'))
      → loop_step stop r x rest ≡ some (pass_step stop r x pass)
  step_lem true r x rest pass h = refl
  step_lem false r (ret_ok, r') rest pass h = h r'
  step_lem false r (ret_error, r') rest pass h = refl
  step_lem false r (ret_norsc, r') rest pass h = refl
  step_lem false r (ret_done, r') rest pass h = refl
  step_lem false r (ret_stray, r') rest pass h = refl

  -- Where the links lead through a list, flowop_composite ends within fuel for its length and is the
  -- pass through the list: its flowops in order, each the count that fo_iters gave before its first
  -- call, and FILEBENCH_DONE before the next flowop once an abort is asked for.
  pub flowop_composite_refines :
      (fuel : ℕ) (head : Option ℕ) (list : List ℕ) (r : Run W)
      → Chain fo_exec_next head list
      → length list ≤ fuel
      → flowop_composite fo_func iters fo_exec_next fuel head r ≡ some (inner_pass list r)
  unfolding flowop_composite composite_from inner_pass
  flowop_composite_refines fuel head [] r c h = rw c refl
  flowop_composite_refines zero head (fo ∷ list) r c h = absurd (omega arith)
  flowop_composite_refines (suc fuel) head (fo ∷ list) r c h =
      let rest = composite_from fo_func iters fo_exec_next fuel (fo_exec_next fo) in
      let x = inner_all fo_func iters fo_exec_next fo r in
      rw c.0 (
        ap (λ stop. loop_step stop r x rest) (asked_lem r)
        ∙ ap (λ y. loop_step (asked r) r y rest) (inner_calls_lem fo_func iters fo_exec_next fo r)
        ∙ step_lem (asked r) r (inner_calls fo_func iters fo_exec_next fo r) rest (inner_pass list)
            (λ r'. flowop_composite_refines fuel (fo_exec_next fo) list r' c.1 (omega arith)))

  module _ (mode : Mode) (fops : Option ℕ) where
    -- The last flowop of a list counts the pass.
    abbrev pub counted : List ℕ → Run W → Run W
    counted [] r = record r { fs_count = r.fs_count + 1 }
    counted (fo ∷ list) r = r

    -- A pass of the main loop through what is left of the list.
    unfoldable pub main_pass : List ℕ → Run W → Turn W
    main_pass [] r = goes_on fops r
    main_pass (fo ∷ list) r =
        if asked r then stopped r else elim ((calls fo_func iters fo_exec_next fo r).0) [
          | ret_ok ↦ main_pass list (counted list (calls fo_func iters fo_exec_next fo r).1)
          | ret ↦
              stopped
                (counted list (flags_after mode ret (calls fo_func iters fo_exec_next fo r).1))
        ]

    abbrev pub next_of : List ℕ → Option ℕ
    next_of [] = fops
    next_of (n ∷ list) = some n

    on_turn : ℕ → Turn W → Turn W
    on_turn turns (goes_on next r) = main_turns fo_func iters fo_exec_next mode turns fops next r
    on_turn turns (stopped r) = stopped r
    on_turn turns (null_flowop r) = null_flowop r
