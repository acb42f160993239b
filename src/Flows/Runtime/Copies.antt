-- ===== src/Flows/Runtime/Copies.antt =====
-- The runtime flowops that flowop_create_runtime_flowops makes of a thread's list.
use filebench_pre_fsl.Base.{ℕ, ◌<◌, ◌≡◌, Bool, Option, List, [], ◌∷◌, ◌++◌}
use filebench_pre_fsl.Ipc.{flowop, filebench_sizes}
use filebench_pre_fsl.Flows.{Flowop, Flows}
use filebench_pre_fsl.Flows.Chain.{Chain, first}
use filebench_pre_fsl.Flows.Delete.{view, Shows}
use filebench_pre_fsl.Flows.Runtime.{flowop_initflow}
use filebench_pre_fsl.Flows.Runtime.Copied.{Copied}
use filebench_pre_fsl.Flows.Runtime.Made.{KeepsLists, Runs, Kept}

module _ {R : Type 0} (zeros : R) (consts : Flows R → Flowop R → R)
    (fo_init : ℕ → Flows R → Bool × Flows R) (init_keeps : KeepsLists (λ n t. (fo_init n t).1))
    (thread : Option ℕ) where
  abbrev initflow : ℕ → Flows R → Flows R
  initflow n t = (flowop_initflow consts fo_init n t).1

  -- The state after one copy and its initialization.
  pub record Stepped (s u : Flows R) (p n : ℕ) (zs ys : List ℕ) : Type 0 where
    pub new : s.ipc.bitmap flowop n ≡ 0
    pub used_now : u.ipc.bitmap flowop n ≡ 1
    pub in_map : u.ipc.last flowop < filebench_sizes u.ipc.memsize flowop
    pub shows : Shows (first (zs ++ (n ∷ []))) u (view (zs ++ (n ∷ [])) (n ∷ ys) u.ipc)
    pub runs : Runs thread (u.shm_flowop n) (s.shm_flowop p)
    pub used_still : (b : ℕ) → s.ipc.bitmap flowop b ≡ 1 → u.ipc.bitmap flowop b ≡ 1
    pub kept : Kept s u zs
