-- ===== src/Limits/Bucket.antt =====
-- The throughput bucket of a limit flowop: what each pass does to it.
use filebench_pre_fsl.Base.{
  ℕ, suc, ◌+◌, ◌-◌, ◌*◌, ◌/◌, ◌<◌, ◌≡◌, refl, ◌⊎◌, inl, inr, Bool, true, false, not, ◌&&◌, arith,
  leb, ◌==◌, if◌then◌else◌, int_to_uint64, if_elim,
}
use filebench_pre_fsl.Base.Int.{ℤ, pos, negsuc, ◌+ℤ◌, neg_part}
use filebench_pre_fsl.Limits.{
  FlowStat, workload, flowop_of, missing, uint64, of_target, megabyte, flowoplib_iopslimit,
  flowoplib_opslimit, flowoplib_bwlimit, Generator, Limiter, Target, Turn, passed, waiting,
  event_find_target, drain, is_negative, sub64, take_events, limit,
}

any_target :
    (target : Target) → event_find_target true target ≡ true → event_find_target false target ≡ true
unfolding event_find_target
any_target workload ready = refl
any_target (flowop_of s attrs) ready = refl
any_target missing ready = ready

pub either_ready :
    (initted : Bool) (target : Target)
    → (initted ≡ true) ⊎ (event_find_target true target ≡ true)
    → (initted ≡ true) ⊎ (event_find_target false target ≡ true)
either_ready initted target (inl h) = inl h
either_ready initted target (inr h) = inr (any_target target h)

module _ (needs_io : Bool) (events : ℕ → ℕ) (unit : ℕ) (target : Target) (now : ℕ) where
  -- How a turn of a limit flowop that has been set up ends, while the generator is on. `l.last` is
  -- the count that the last turn saw, and `drained` the bucket less the work done since then.
  pub data LimitOutcome (g : Generator) (l : Limiter) (t : Turn) : Type 0 where
    -- the first turn only notes the count
    starts :
        l.last ≡ 0
        → t ≡ passed false (record { initted = true; bucket = l.bucket; last = now }) g.queue
        → LimitOutcome g l t
    -- the work is paid for
    credit :
        (n : ℕ)
        → drain l.bucket (sub64 now l.last) ≡ pos n
        → t ≡ passed true (record { initted = true; bucket = pos n; last = now }) g.queue
        → LimitOutcome g l t
    -- the events for the debt are there and are taken
    pays :
        (debt taken left : ℕ)
        → drain l.bucket (sub64 now l.last) ≡ negsuc debt
        → taken ≡ events (suc debt)
        → g.queue ≡ taken + left
        → t
          ≡ passed true
              (record { initted = true; bucket = negsuc debt +ℤ pos (taken * unit); last = now })
              left
        → LimitOutcome g l t
    -- they are not
    waits :
        (debt : ℕ)
        → drain l.bucket (sub64 now l.last) ≡ negsuc debt
        → g.queue < events (suc debt)
        → t
          ≡ waiting
              (record { initted = true; bucket = negsuc debt; last = now })
              (events (suc debt))
        → LimitOutcome g l t

  module _ (g : Generator) (l : Limiter) (is_on : g.enabled ≡ true) where
    take-LimitOutcome :
        (debt : ℕ)
        → drain l.bucket (sub64 now l.last) ≡ negsuc debt
        → LimitOutcome g l (
            take_events g
              (record { initted = true; bucket = negsuc debt; last = now })
              (events (suc debt))
              (events (suc debt) * unit))
    unfolding take_events
    take-LimitOutcome debt e =
        if_elim (LimitOutcome g l) (not g.enabled) (λ off. ground (arith, is_on))
          (λ _.
            if_elim (LimitOutcome g l) (leb (events (suc debt)) g.queue)
              (λ enough.
                pays debt (events (suc debt)) (g.queue - events (suc debt)) e refl (ground arith)
                  refl)
              (λ short. waits debt e (ground arith) refl))

    drained :
        (b : ℤ)
        → drain l.bucket (sub64 now l.last) ≡ b
        → LimitOutcome g l (
            let l2 : Limiter = record { initted = true; bucket = b; last = now } in
            if not (is_negative l2.bucket)
            then passed true l2 g.queue
            else (let wanted = events (neg_part l2.bucket) in
                take_events g l2 wanted (wanted * unit)))
    drained (pos n) e = credit n e refl
    drained (negsuc n) e = take-LimitOutcome n e

    -- The ways that a turn ends are the four above.
    pub limit_outcome :
        (l.initted ≡ true) ⊎ (event_find_target needs_io target ≡ true)
        → LimitOutcome g l (limit needs_io events unit target now g l)
    unfolding limit
    limit_outcome ready =
        if_elim (LimitOutcome g l) (not g.enabled) (λ off. ground (arith, is_on))
          (λ _.
            if_elim (LimitOutcome g l) (not l.initted && not (event_find_target needs_io target))
              (λ bad. elim ready [ inl h ↦ ground (arith, h) | inr h ↦ ground (arith, h) ])
              (λ _.
                if_elim (LimitOutcome g l) (l.last == 0) (λ first. starts (ground arith) refl)
                  (λ _. drained (drain l.bucket (sub64 now l.last)) refl)))

-- While the generator is on, iopslimit, opslimit and bwlimit, once set up or with a target that
-- does I/O, either only note the count (the first turn), or pass because the bucket covers the work
-- since the last turn, or take the events for the whole debt, which are in the queue, or wait
-- because there are fewer. The debt is in operations, one event each, or for bwlimit in bytes, one
-- event for each started megabyte.
limits_outcome :
    (target : Target) (control : FlowStat) (g : Generator) (l : Limiter)
    → g.enabled ≡ true
    → (l.initted ≡ true) ⊎ (event_find_target true target ≡ true)
    → LimitOutcome true
        (λ debt. debt)
        1
        target
        (of_target target (λ s. int_to_uint64 s.count) (λ s. uint64 (s.rcount + s.wcount)) control)
        g
        l
        (flowoplib_iopslimit target control g l)
      × LimitOutcome false
          (λ debt. debt)
          1
          target
          (of_target target (λ s. int_to_uint64 s.count) (λ s. int_to_uint64 s.count) control)
          g
          l
          (flowoplib_opslimit target control g l)
      × LimitOutcome true
          (λ debt. debt / megabyte + 1)
          megabyte
          target
          (of_target target (λ s. s.bytes) (λ s. uint64 (s.rbytes + s.wbytes)) control)
          g
          l
          (flowoplib_bwlimit target control g l)
unfolding flowoplib_iopslimit flowoplib_opslimit flowoplib_bwlimit
limits_outcome target control g l is_on ready = (
  limit_outcome true (λ debt. debt) 1 target _ g l is_on ready,
  limit_outcome false (λ debt. debt) 1 target _ g l is_on (either_ready l.initted target ready),
  limit_outcome true (λ debt. debt / megabyte + 1) megabyte target _ g l is_on ready,
)
