-- ===== src/Tests/Runtime.antt =====
-- Runs of the model of the runtime flowops and of the flowops that reach others by name.
use filebench_pre_fsl.Base.{ℕ, ◌+◌, update, Bool, none, ◌==◌}
use filebench_pre_fsl.Flows.{Flowop, Flows}
use filebench_pre_fsl.Flows.Targets.{Targets, SemPair}

abbrev consts : Flows ℕ → Flowop ℕ → ℕ
consts t fo = fo.rest + 3

-- An initialization that stores into the rest of its flowop, and fails for the flowop 6.
abbrev fo_init : ℕ → Flows ℕ → Bool × Flows ℕ
fo_init n t = (
  n == 6,
  record t { shm_flowop = update t.shm_flowop n (record (t.shm_flowop n) { rest = n + 1 }) },
)

abbrev no_targets : Targets
no_targets = record { fo_targets = λ fo. none; fo_targetnext = λ fo. none }

abbrev semids : ℕ → SemPair
semids t = record { lw = t; hw = t + 10 }

abbrev fails : ℕ → Bool
fails t = t == 3
