-- ===== src/Tests/Limits.antt =====
-- Examples for Limits, Random and Descriptors.
use filebench_pre_fsl.Base.{◌+◌, ◌-◌, ◌*◌, ◌/◌, ◌≡◌, refl, true, false, some, [], ◌∷◌, arith}
use filebench_pre_fsl.Base.Int.{pos, ◌+ℤ◌}
use filebench_pre_fsl.Limits.{
  Generator, Limiter, FlowStat, Attrs, Ledger, workload, limit, take_events, io, eventgen_turn,
  int_rate, megabyte,
}
use filebench_pre_fsl.Limits.Events.{Run, start, turn, posted_by, events_conserved}
use filebench_pre_fsl.Limits.Stats.{Balanced, end_all, end_all-Balanced}
use filebench_pre_fsl.Limits.Passes.{Paced, begins, passes}
use filebench_pre_fsl.Random.{filebench_randomno64, filebench_randomno32}
use filebench_pre_fsl.Random.Range.{Ranged, randomno_Ranged}
use filebench_pre_fsl.Descriptors.{flowoplib_fdnum}
use filebench_pre_fsl.Descriptors.Rotation.{rotating, rotor_after, fdnum_cycle}

abbrev idle_generator : Generator
idle_generator = record { hz = some 10; enabled = true; queue = 0 }

abbrev busy_generator : Generator
busy_generator = record { hz = some 10; enabled = true; queue = 7 }

abbrev limiter : Limiter
limiter = record { initted = true; bucket = pos 0; last = 100 }

abbrev no_stats : FlowStat
no_stats = record { count = 0; rbytes = 0; wbytes = 0; bytes = 0; rcount = 0; wcount = 0 }

abbrev empty_ledger : Ledger
empty_ledger = record { flowop = no_stats; thread = no_stats; control = no_stats }

abbrev reader : Attrs
reader = record { reads = true; writes = false }

abbrev some_events :
    Run idle_generator
      (0 + posted_by 1000000000 idle_generator)
      0
      (eventgen_turn 1000000000 idle_generator)
unfolding int_rate
some_events = turn 1000000000 (omega arith) start

events_conserved_example :
    idle_generator.queue + (0 + posted_by 1000000000 idle_generator)
    ≡ (eventgen_turn 1000000000 idle_generator).queue + 0
unfolding int_rate
events_conserved_example =
    events_conserved idle_generator (eventgen_turn 1000000000 idle_generator)
      (0 + posted_by 1000000000 idle_generator) 0 some_events (omega arith)

-- Five operations, and five events for them.
abbrev after_five : Limiter
after_five = record { initted = true; bucket = pos 0; last = 105 }

abbrev five :
    Paced true
      (λ debt. debt)
      1
      workload
      limiter
      (0 + (105 - limiter.last))
      (0 + (busy_generator.queue - 2))
      after_five
unfolding limit take_events ◌+ℤ◌
five = passes 105 busy_generator after_five 2 true begins (omega arith) (omega arith) refl refl

-- Five bytes, and one event for a megabyte.
abbrev after_bytes : Limiter
after_bytes = record { initted = true; bucket = pos 1048571; last = 105 }

abbrev five_bytes :
    Paced true
      (λ debt. debt / megabyte + 1)
      megabyte
      workload
      limiter
      (0 + (105 - limiter.last))
      (0 + (busy_generator.queue - 6))
      after_bytes
unfolding limit take_events ◌+ℤ◌
five_bytes =
    passes 105 busy_generator after_bytes 6 true begins (omega arith) (omega arith) refl refl

end_all-Balanced_example : Balanced (end_all io reader (512 ∷ 100 ∷ []) empty_ledger)
end_all-Balanced_example =
    end_all-Balanced io reader (512 ∷ 100 ∷ []) empty_ledger refl
      (record { ops = refl; bytes = refl; no_rbytes = refl; no_wbytes = refl })

randomno_Ranged_example :
    Ranged 1000 8 (filebench_randomno64 123456789 1000 8)
    × Ranged 1000 8 (filebench_randomno32 123456789 1000 8)
randomno_Ranged_example = randomno_Ranged 123456789 1000 8

random32 : filebench_randomno32 123456789 1000 8 ≡ some 24
unfolding filebench_randomno32
random32 = refl

fdnum_cycle_example :
    flowoplib_fdnum (rotating 3) (rotor_after 3 (1 * 3 + 2)) ≡ (some (127 - 2), 127 - 2)
fdnum_cycle_example = fdnum_cycle 3 1 2 (omega arith) (omega arith)
