-- ===== src/Limits/Finish.antt =====
-- The flowops that end a run.
use filebench_pre_fsl.Base.{
  ℕ, ◌≤◌, ◌<◌, ◌≡◌, refl, ap, ◌↔◌, ◌⊎◌, inl, inr, Bool, true, false, not, ◌&&◌, arith, ltb, leb,
  if◌then◌else◌, int_to_uint64, ltb→lt, lt→ltb, leb→le,
}
use filebench_pre_fsl.Limits.{
  FlowStat, Target, Limiter, Verdict, go_on, done, error, event_find_target, of_target,
  flowoplib_finishonbytes, flowoplib_finishoncount,
}
use filebench_pre_fsl.Limits.Bucket.{either_ready}

abbrev is_done : Verdict → Bool
is_done go_on = false
is_done done = true
is_done error = false

verdict_iff :
    (bad enough : Bool)
    → bad ≡ false
    → ((if bad then error else if enough then done else go_on) ≡ done) ↔ (enough ≡ true)
verdict_iff true enough h = ground arith
verdict_iff false true h = (λ _. refl, λ _. refl)
verdict_iff false false h = (λ e. ap is_done e, λ e. ground arith)

ready_not_bad :
    (initted found : Bool) → (initted ≡ true) ⊎ (found ≡ true) → not initted && not found ≡ false
ready_not_bad initted found (inl h) = ground arith
ready_not_bad initted found (inr h) = ground arith

le→leb : (a b : ℕ) → a ≤ b → leb a b ≡ true
le→leb a b h = ground arith

-- A finish flowop that has been set up, or whose target can be used, ends the run exactly when
-- more bytes than its limit have been moved (finishonbytes), or at least as many operations as its
-- limit have been done (finishoncount).
finish_iff :
    (target : Target) (most : ℕ) (control : FlowStat) (l : Limiter)
    → (l.initted ≡ true) ⊎ (event_find_target true target ≡ true)
    → ((flowoplib_finishonbytes target most control l ≡ done)
        ↔ (most < of_target target (λ s. s.bytes) (λ s. s.bytes) control))
      × ((flowoplib_finishoncount target most control l ≡ done) ↔ (
          most
          ≤ of_target target (λ s. int_to_uint64 s.count) (λ s. int_to_uint64 s.count) control))
unfolding flowoplib_finishonbytes flowoplib_finishoncount
finish_iff target most control l ready =
    let bytes = of_target target (λ s. s.bytes) (λ s. s.bytes) control in
    let count =
      of_target target (λ s. int_to_uint64 s.count) (λ s. int_to_uint64 s.count) control in
    let for_bytes =
      verdict_iff _ (ltb most bytes)
        (ready_not_bad l.initted (event_find_target true target) ready) in
    let for_count = verdict_iff _ (leb most count) (
      ready_not_bad l.initted (event_find_target false target)
        (either_ready l.initted target ready)) in
    (
      (λ e. ltb→lt most bytes (for_bytes.0 e), λ lt. for_bytes.1 (lt→ltb most bytes lt)),
      (λ e. leb→le most count (for_count.0 e), λ le. for_count.1 (le→leb most count le)),
    )
