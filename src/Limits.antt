-- ===== src/Limits.antt =====
-- The event queue and the flowops that it limits: filebench/eventgen.c, flowop_endop of
-- filebench/flowop.c, and the limit and finish flowops of filebench/flowop_library.c. Latency
-- times, log messages and the flowops' own NULL checks are left out; a mutex is held for each step.
pub mod Events
pub mod Stats
pub mod Bucket
pub mod Queue
pub mod Passes
pub mod Finish
use filebench_pre_fsl.Base.{
  ℕ, zero, suc, ◌+◌, ◌-◌, ◌*◌, ◌/◌, ◌%◌, ◌^◌, ◌≡◌, Bool, true, false, not, ◌&&◌, ◌||◌, Option, none,
  some, ltb, leb, ◌==◌, if◌then◌else◌, int_to_uint64,
}
use filebench_pre_fsl.Base.Int.{ℤ, pos, negsuc, ◌+ℤ◌, negate, pos_part, neg_part}

abbrev pub uint64 : ℕ → ℕ
uint64 n = n % 2 ^ 64

-- A flowop's fo_type, by number.
pub data FlowType : Type 0 where
  global io aio sync composite other : FlowType

abbrev pub type_number : FlowType → ℕ
type_number global = 0
type_number io = 1
type_number aio = 2
type_number sync = 3
type_number composite = 4
type_number other = 5

-- FLOW_ATTR_READ and FLOW_ATTR_WRITE of fo_attrs.
pub record Attrs : Type 0 where
  pub reads : Bool
  pub writes : Bool

-- The counts of flowstat_t that the operations below read; the uint64_t fields wrap around.
pub record FlowStat : Type 0 where
  pub count : ℕ
  pub rbytes : ℕ
  pub wbytes : ℕ
  pub bytes : ℕ
  pub rcount : ℕ
  pub wcount : ℕ

-- `fs_count++; fs_bytes += bytes`. fs_count is an `int`, kept by its bits; that the increment of the
-- largest int wraps around is what the compilers make of it.
unfoldable pub add_op : ℕ → FlowStat → FlowStat
add_op bytes s = record s { count = (s.count + 1) % 2 ^ 32; bytes = uint64 (s.bytes + bytes) }

unfoldable pub add_read : ℕ → FlowStat → FlowStat
add_read bytes s = record s { rbytes = uint64 (s.rbytes + bytes); rcount = uint64 (s.rcount + 1) }

unfoldable pub add_write : ℕ → FlowStat → FlowStat
add_write bytes s = record s { wbytes = uint64 (s.wbytes + bytes); wcount = uint64 (s.wcount + 1) }

-- Bit `b` of a number.
abbrev pub bit : (b n : ℕ) → Bool
bit b n = (n / b) % 2 == 1

-- `(fo_type & FLOW_TYPE_IO) || (fo_type & FLOW_TYPE_AIO)`, the tests of two single bits.
abbrev pub counts_as_io : FlowType → Bool
counts_as_io t = bit 1 (type_number t) || bit 2 (type_number t)

-- The statistics that flowop_endop updates: of the flowop, of the thread (only reads and writes)
-- and controlstats.
pub record Ledger : Type 0 where
  pub flowop : FlowStat
  pub thread : FlowStat
  pub control : FlowStat

unfoldable pub flowop_endop : FlowType → Attrs → ℕ → Ledger → Ledger
unfolding add_op add_read add_write
flowop_endop t attrs bytes l =
    let own = add_op bytes l.flowop in
    let all = if counts_as_io t then add_op bytes l.control else l.control in
    if attrs.reads
    then record {
      flowop = record own { rcount = uint64 (own.rcount + 1) };
      thread = add_read bytes l.thread;
      control = add_read bytes all;
    }
    else if attrs.writes
    then record {
      flowop = record own { wcount = uint64 (own.wcount + 1) };
      thread = add_write bytes l.thread;
      control = add_write bytes all;
    }
    else record { flowop = own; thread = l.thread; control = all }

-- The event generator's shared state: shm_eventgen_hz (`none` for NULL, else the rate's value),
-- shm_eventgen_enabled and shm_eventgen_q.
pub record Generator : Type 0 where
  pub hz : Option ℕ
  pub enabled : Bool
  pub queue : ℕ

-- The `int` rate, with 0 where it is negative: both are passed over.
unfoldable pub int_rate : ℕ → ℕ
int_rate hz = if ltb (hz % 2 ^ 32) (2 ^ 31) then hz % 2 ^ 32 else 0

-- One turn of the loop of eventgen_thread, `delta` nanoseconds after the last one. `5 * rate` and
-- `count` are ints, which are converted to uint64_t.
unfoldable pub eventgen_turn : ℕ → Generator → Generator
unfolding int_rate
eventgen_turn delta g = elim g.hz [
  | none ↦ g
  | some hz ↦
      let rate = int_rate hz in
      let count = uint64 (rate * delta) / 1000000000 in
      if rate == 0 then g else record g {
        enabled = true;
        queue =
            if ltb g.queue (int_to_uint64 (5 * rate))
            then uint64 (g.queue + int_to_uint64 count)
            else g.queue;
      }
]

-- eventgen_setrate.
unfoldable pub eventgen_setrate : Option ℕ → Generator → Generator
eventgen_setrate rate g = record g { hz = rate }

-- eventgen_reset.
unfoldable pub eventgen_reset : Generator → Generator
eventgen_reset g = record g { queue = 0 }

-- A limit flowop's own state: fo_initted, fo_tputbucket and fo_tputlast.
pub record Limiter : Type 0 where
  pub initted : Bool
  pub bucket : ℤ
  pub last : ℕ

-- What the flowop names as its target: nothing (all the work counts), a flowop of the thread with
-- its statistics and attributes, or a flowop that is not there.
pub data Target : Type 0 where
  workload : Target
  flowop_of : FlowStat → Attrs → Target
  missing : Target

pub data Turn : Type 0 where
  -- FILEBENCH_OK with flowop_endop (`counted`) or without
  passed : (counted : Bool) → Limiter → (queue : ℕ) → Turn
  -- pthread_cond_wait, for so many events
  waiting : Limiter → (events : ℕ) → Turn
  -- FILEBENCH_ERROR, after filebench_shutdown
  refused : Turn

-- flowoplib_event_find_target and the check that follows it where the limit is on I/O: whether the
-- flowop goes on.
unfoldable pub event_find_target : (needs_io : Bool) → Target → Bool
event_find_target needs_io workload = true
event_find_target needs_io (flowop_of s attrs) = not needs_io || (attrs.reads || attrs.writes)
event_find_target needs_io missing = false

-- `fo_tputbucket -= delta` for an int64_t and a uint64_t. A delta of 2^63 or more, with which the
-- int64_t wraps around, is not modelled.
abbrev pub drain : ℤ → ℕ → ℤ
drain bucket delta = bucket +ℤ negate (pos delta)

abbrev pub is_negative : ℤ → Bool
is_negative (pos n) = false
is_negative (negsuc n) = true

-- `a - b` for uint64_t.
abbrev pub sub64 : ℕ → ℕ → ℕ
sub64 a b = (a + 2 ^ 64 - b) % 2 ^ 64

-- The wait: it ends when there are enough events, which are taken, or when the generator is off.
unfoldable pub take_events : Generator → Limiter → (events refill : ℕ) → Turn
take_events g l events refill =
    if not g.enabled
    then passed true l g.queue
    else if leb events g.queue
    then passed true (record l { bucket = l.bucket +ℤ pos refill }) (g.queue - events)
    else waiting l events

-- What the three limit flowops share, from the first check to the end. `now` is the count that
-- the flowop limits, `unit` what one event stands for, and `events` the events to take for a debt.
unfoldable pub limit :
    (needs_io : Bool) → (events : ℕ → ℕ) → (unit : ℕ) → Target → ℕ → Generator → Limiter → Turn
unfolding event_find_target take_events
limit needs_io events unit target now g l =
    let l1 = record l { initted = true } in
    if not g.enabled
    then passed false l g.queue
    else if not l.initted && not (event_find_target needs_io target)
    then refused
    else if l.last == 0
    then passed false (record l1 { last = now }) g.queue
    else (let l2 = record l1 { bucket = drain l.bucket (sub64 now l.last); last = now } in
        if not (is_negative l2.bucket)
        then passed true l2 g.queue
        else (let wanted = events (neg_part l2.bucket) in take_events g l2 wanted (wanted * unit)))

-- The statistics that a limit or finish flowop reads: its target's or controlstats.
abbrev pub of_target : Target → (target_count control_count : FlowStat → ℕ) → FlowStat → ℕ
of_target (flowop_of s attrs) target_count control_count control = target_count s
of_target workload target_count control_count control = control_count control
of_target missing target_count control_count control = control_count control

unfoldable pub flowoplib_iopslimit : Target → FlowStat → Generator → Limiter → Turn
unfolding limit
flowoplib_iopslimit target control =
    limit true (λ debt. debt) 1 target
      (of_target target (λ s. int_to_uint64 s.count) (λ s. uint64 (s.rcount + s.wcount)) control)

unfoldable pub flowoplib_opslimit : Target → FlowStat → Generator → Limiter → Turn
unfolding limit
flowoplib_opslimit target control =
    limit false (λ debt. debt) 1 target
      (of_target target (λ s. int_to_uint64 s.count) (λ s. int_to_uint64 s.count) control)

abbrev pub megabyte : ℕ
megabyte = 1048576

unfoldable pub flowoplib_bwlimit : Target → FlowStat → Generator → Limiter → Turn
unfolding limit
flowoplib_bwlimit target control =
    limit true (λ debt. debt / megabyte + 1) megabyte target
      (of_target target (λ s. s.bytes) (λ s. uint64 (s.rbytes + s.wbytes)) control)

-- flowoplib_eventlimit: one event, and no bucket.
unfoldable pub flowoplib_eventlimit : Generator → Limiter → Turn
flowoplib_eventlimit g l =
    let l1 = record l { initted = true } in
    if not g.enabled
    then passed false l g.queue
    else if ltb 0 g.queue
    then passed true l1 (g.queue - 1)
    else waiting l1 1

-- FILEBENCH_OK, FILEBENCH_DONE and FILEBENCH_ERROR.
pub data Verdict : Type 0 where
  go_on done error : Verdict

unfoldable pub flowoplib_finishonbytes : Target → (limit : ℕ) → FlowStat → Limiter → Verdict
unfolding event_find_target
flowoplib_finishonbytes target most control l =
    if not l.initted && not (event_find_target true target)
    then error
    else if ltb most (of_target target (λ s. s.bytes) (λ s. s.bytes) control)
    then done
    else go_on

unfoldable pub flowoplib_finishoncount : Target → (limit : ℕ) → FlowStat → Limiter → Verdict
unfolding event_find_target
flowoplib_finishoncount target most control l =
    if not l.initted && not (event_find_target false target)
    then error
    else if leb most
        (of_target target (λ s. int_to_uint64 s.count) (λ s. int_to_uint64 s.count) control)
    then done
    else go_on
