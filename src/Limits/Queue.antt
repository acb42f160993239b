-- ===== src/Limits/Queue.antt =====
-- What a limit flowop returns, and what it has then taken from the queue.
use filebench_pre_fsl.Base.{
  ℕ, zero, suc, ◌+◌, ◌-◌, ◌≡◌, refl, sym, ap, ◌∙◌, ◌≢◌, Bool, true, false, not, arith, ltb, leb,
  if◌then◌else◌,
}
use filebench_pre_fsl.Base.Int.{pos, ◌+ℤ◌}
use filebench_pre_fsl.Limits.{
  Generator, Limiter, Turn, passed, waiting, refused, take_events, flowoplib_eventlimit,
}

abbrev pub queue_of : ℕ → Turn → ℕ
queue_of other (passed counted l queue) = queue
queue_of other (waiting l events) = other
queue_of other refused = other

abbrev pub limiter_of : Limiter → Turn → Limiter
limiter_of other (passed counted l queue) = l
limiter_of other (waiting l events) = l
limiter_of other refused = other

abbrev pub events_of : Turn → ℕ
events_of (passed counted l queue) = 0
events_of (waiting l events) = events
events_of refused = 0

abbrev pub has_passed : Turn → ℕ
has_passed (passed counted l queue) = 1
has_passed (waiting l events) = 0
has_passed refused = 0

pub waiting_not_passed :
    {counted : Bool} {l l' : Limiter} {events queue : ℕ}
    → waiting l events ≢ passed counted l' queue
waiting_not_passed e = (let clash : zero ≡ suc zero = ap has_passed e in ground arith)

take_on :
    (g : Generator) (l : Limiter) (events refill : ℕ)
    → g.enabled ≡ true
    → take_events g l events refill ≡ (
        if leb events g.queue
        then passed true (record l { bucket = l.bucket +ℤ pos refill }) (g.queue - events)
        else waiting l events)
unfolding take_events
take_on g l events refill is_on =
    ap
      (λ b.
        if not b
        then passed true l g.queue
        else if leb events g.queue
        then passed true (record l { bucket = l.bucket +ℤ pos refill }) (g.queue - events)
        else waiting l events)
      is_on

take_if :
    (l' l1 l2 : Limiter) (have events queue : ℕ) (counted enough : Bool)
    → leb events have ≡ enough
    → (if enough then passed true l1 (have - events) else waiting l2 events)
      ≡ passed counted l' queue
    → (have ≡ queue + events) × (l' ≡ l1)
take_if l' l1 l2 have events queue counted true h e =
    let left : have - events ≡ queue = ap (queue_of 0) e in
    (ground arith, sym (ap (limiter_of l1) e))
take_if l' l1 l2 have events queue counted false h e = elim (waiting_not_passed e) [ ]

-- A wait that ends while the generator is on has taken its events and refilled the bucket.
pub take_passed :
    (g : Generator) (l l' : Limiter) (events refill queue : ℕ) (counted : Bool)
    → g.enabled ≡ true
    → take_events g l events refill ≡ passed counted l' queue
    → (g.queue ≡ queue + events) × (l' ≡ record l { bucket = l.bucket +ℤ pos refill })
take_passed g l l' events refill queue counted is_on e =
    take_if l' (record l { bucket = l.bucket +ℤ pos refill }) l g.queue events queue counted
      (leb events g.queue) refl (sym (take_on g l events refill is_on) ∙ e)

-- An eventlimit that passes while the generator is on has taken one event.
pub eventlimit_passed :
    (g : Generator) (l l' : Limiter) (queue : ℕ) (counted : Bool)
    → g.enabled ≡ true
    → flowoplib_eventlimit g l ≡ passed counted l' queue
    → g.queue ≡ queue + 1
unfolding flowoplib_eventlimit
eventlimit_passed g l l' queue counted is_on e =
    (take_if l' l1 l1 g.queue 1 queue counted (leb 1 g.queue) refl (sym on ∙ e)).0
  where
    l1 : Limiter
    l1 = record l { initted = true }

    tests :
        (if ltb 0 g.queue then passed true l1 (g.queue - 1) else waiting l1 1)
        ≡ (if leb 1 g.queue then passed true l1 (g.queue - 1) else waiting l1 1)
    tests = ap (λ b. if b then passed true l1 (g.queue - 1) else waiting l1 1) (ground arith)

    on :
        flowoplib_eventlimit g l
        ≡ (if leb 1 g.queue then passed true l1 (g.queue - 1) else waiting l1 1)
    on =
        ap
          (λ b.
            if not b
            then passed false l g.queue
            else if ltb 0 g.queue
            then passed true l1 (g.queue - 1)
            else waiting l1 1)
          is_on
        ∙ tests
