-- ===== src/Limits/Passes.antt =====
-- A limit flowop over a run: the work it lets through against the events it takes.
use filebench_pre_fsl.Base.{ℕ, ◌+◌, ◌-◌, ◌*◌, ◌^◌, ◌≤◌, ◌<◌, ◌≡◌, Bool, true}
use filebench_pre_fsl.Base.Int.{pos}
use filebench_pre_fsl.Limits.{Generator, Limiter, Target, passed, waiting, take_events, limit}
use filebench_pre_fsl.Limits.Bucket.{credit}

module _ (needs_io : Bool) (events : ℕ → ℕ) (unit : ℕ) (target : Target) where
  -- Turns of one limit flowop while the generator is on, from a state of it: each sees the count
  -- `now`, and either passes at once or waits and passes under a later state of the generator.
  -- `work` is what the count has grown by since, and `taken` the events taken.
  pub data Paced (l0 : Limiter) : (work taken : ℕ) → Limiter → Type 0 where
    begins : Paced l0 0 0 l0
    passes :
        {work taken : ℕ} {l : Limiter} (now : ℕ) (g : Generator) (l' : Limiter) (queue : ℕ)
        (counted : Bool)
        → Paced l0 work taken l
        → l.last ≤ now
        → now < 2 ^ 64
        → g.enabled ≡ true
        → limit needs_io events unit target now g l ≡ passed counted l' queue
        → Paced l0 (work + (now - l.last)) (taken + (g.queue - queue)) l'
    wakes :
        {work taken : ℕ} {l : Limiter} (now : ℕ) (g g' : Generator) (l1 l' : Limiter)
        (wanted queue : ℕ) (counted : Bool)
        → Paced l0 work taken l
        → l.last ≤ now
        → now < 2 ^ 64
        → g.enabled ≡ true
        → limit needs_io events unit target now g l ≡ waiting l1 wanted
        → g'.enabled ≡ true
        → take_events g' l1 wanted (wanted * unit) ≡ passed counted l' queue
        → Paced l0 (work + (now - l.last)) (taken + (g'.queue - queue)) l'

  -- The flowop is set up, its bucket holds `credit`, and the events taken have paid for the rest.
  pub record Paid (start work taken : ℕ) (l : Limiter) : Type 0 where
    pub credit : ℕ
    pub in_bucket : l.bucket ≡ pos credit
    pub balance : start + taken * unit ≡ work + credit
    pub ready : l.initted ≡ true
    pub counting : 0 < l.last
