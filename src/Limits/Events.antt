-- ===== src/Limits/Events.antt =====
-- The event queue as its producer and its consumers see it.
use filebench_pre_fsl.Base.{
  ℕ, ◌+◌, ◌*◌, ◌/◌, ◌^◌, ◌<◌, ◌≡◌, refl, Bool, true, false, Option, none, some, arith, ltb,
  if◌then◌else◌, ◌==◌, int_to_uint64, int_fits,
}
use filebench_pre_fsl.Limits.Queue.{take_passed, eventlimit_passed}
use filebench_pre_fsl.Limits.{
  uint64, int_rate, Generator, eventgen_turn, eventgen_setrate, Limiter, passed, take_events,
  flowoplib_eventlimit,
}

-- The events that a turn of eventgen_thread adds.
abbrev pub posted_by : ℕ → Generator → ℕ
posted_by delta g = elim g.hz [
  | none ↦ 0
  | some hz ↦
      if int_rate hz == 0
      then 0
      else if ltb g.queue (int_to_uint64 (5 * int_rate hz))
      then (int_rate hz * delta) / 1000000000
      else 0
]

-- Any interleaving of turns of the generator, each of which posts a count that fits an int, changes of the rate and flowops that take events,
-- with the number of events posted and taken.
pub data Run (g : Generator) : (posted taken : ℕ) → Generator → Type 0 where
  start : Run g 0 0 g
  turn :
      {posted taken : ℕ} {g' : Generator} (delta : ℕ)
      → posted_by delta g' < 2 ^ 31
      → Run g posted taken g'
      → Run g (posted + posted_by delta g') taken (eventgen_turn delta g')
  setrate :
      {posted taken : ℕ} {g' : Generator} (rate : Option ℕ)
      → Run g posted taken g'
      → Run g posted taken (eventgen_setrate rate g')
  take :
      {posted taken : ℕ} {g' : Generator} (l l' : Limiter) (events refill queue : ℕ)
      → g'.enabled ≡ true
      → Run g posted taken g'
      → take_events g' l events refill ≡ passed true l' queue
      → Run g posted (taken + events) (record g' { queue = queue })
  take_one :
      {posted taken : ℕ} {g' : Generator} (l l' : Limiter) (queue : ℕ)
      → g'.enabled ≡ true
      → Run g posted taken g'
      → flowoplib_eventlimit g' l ≡ passed true l' queue
      → Run g posted (taken + 1) (record g' { queue = queue })

add_if :
    (queue count count' : ℕ) (room : Bool)
    → (count < 2 ^ 31 → count' ≡ count)
    → (if room then count else 0) < 2 ^ 31
    → queue + (if room then count else 0) < 2 ^ 64
    → (if room then uint64 (queue + int_to_uint64 count') else queue)
      ≡ queue + (if room then count else 0)
add_if queue count count' true same fits small = rw (same fits, int_fits count fits) (ground arith)
add_if queue count count' false same fits small = ground arith

turn-queue_of :
    (delta : ℕ) (hz : Option ℕ) (enabled : Bool) (queue : ℕ)
    → (let g : Generator = record { hz = hz; enabled = enabled; queue = queue } in
        posted_by delta g < 2 ^ 31
        → queue + posted_by delta g < 2 ^ 64
        → (eventgen_turn delta g).queue ≡ queue + posted_by delta g)
unfolding eventgen_turn
turn-queue_of delta none enabled queue fits small = omega arith
turn-queue_of delta (some hz) enabled queue fits small = turn_by (int_rate hz == 0) fits small
  where
    count : ℕ
    count = int_rate hz * delta / 1000000000

    product : count < 2 ^ 31 → uint64 (int_rate hz * delta) / 1000000000 ≡ count
    product fits = ground arith

    room : Bool
    room = ltb queue (int_to_uint64 (5 * int_rate hz))

    stopped : Generator
    stopped = record { hz = some hz; enabled = enabled; queue = queue }

    turn_by :
        (stops : Bool)
        → (if stops then 0 else if room then count else 0) < 2 ^ 31
        → queue + (if stops then 0 else if room then count else 0) < 2 ^ 64
        → (if stops then stopped else record {
          hz = some hz;
          enabled = true;
          queue =
              if room
              then uint64 (queue + int_to_uint64 (uint64 (int_rate hz * delta) / 1000000000))
              else queue;
        }).queue
          ≡ queue + (if stops then 0 else if room then count else 0)
    turn_by true fits small = omega arith
    turn_by false fits small =
        add_if queue count (uint64 (int_rate hz * delta) / 1000000000) room product fits small

turn-queue :
    (delta : ℕ) (g : Generator)
    → posted_by delta g < 2 ^ 31
    → g.queue + posted_by delta g < 2 ^ 64
    → (eventgen_turn delta g).queue ≡ g.queue + posted_by delta g
turn-queue delta g fits small = turn-queue_of delta g.hz g.enabled g.queue fits small

-- However turns of the generator, changes of the rate and flowops that take events interleave, with
-- no reset, a count that fits an int in each turn, and fewer than 2^64 events in all, events are neither lost nor invented: those in the
-- queue and those posted since are those still in the queue and those taken.
pub events_conserved :
    (g g' : Generator) (posted taken : ℕ)
    → Run g posted taken g'
    → g.queue + posted < 2 ^ 64
    → g.queue + posted ≡ g'.queue + taken
unfolding eventgen_setrate
events_conserved g _ _ _ start small = refl
events_conserved g _ _ _ (turn {posted} {taken} {g'} delta fits run) small =
    let before = events_conserved g g' posted taken run (omega arith) in
    let after = turn-queue delta g' fits (omega arith) in omega arith
events_conserved g _ _ _ (setrate {posted} {taken} {g'} rate run) small =
    events_conserved g g' posted taken run small
events_conserved g _ _ _ (take {posted} {taken} {g'} l l' events refill queue is_on run e) small =
    let before = events_conserved g g' posted taken run small in
    let after = (take_passed g' l l' events refill queue true is_on e).0 in omega arith
events_conserved g _ _ _ (take_one {posted} {taken} {g'} l l' queue is_on run e) small =
    let before = events_conserved g g' posted taken run small in
    let after = eventlimit_passed g' l l' queue true is_on e in omega arith
