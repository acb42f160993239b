-- ===== src/Flows/Targets/Laws.antt =====
-- Whom flowoplib_wakeup and flowoplib_sempost of filebench/flowop_library.c reach.
use filebench_pre_fsl.Base.{ℕ, ◌≤◌, ◌≡◌, Bool, true, Option, some, List, [], ◌∷◌, map, length}
use filebench_pre_fsl.Vars.{Str}
use filebench_pre_fsl.Flows.{Flows}
use filebench_pre_fsl.Flows.Chain.{Chain, NoDup}
use filebench_pre_fsl.Flows.Delete.{master_in}
use filebench_pre_fsl.Flows.Targets.{
  Targets, Listing, listed, sent, shut_down, flowoplib_wakeup, SemPair, post, flowoplib_sempost,
}
use filebench_pre_fsl.Flows.Targets.Links.{found, drop_if, up_to, none_of}

module _ {R : Type 0} (fuel fo : ℕ) (name : Str) (ts : Targets) (s : Flows R) (ys : List ℕ)
    (lt : length ys ≤ fuel) (once : NoDup ys) (chain : Chain s.fo_next s.shm_flowoplist ys) where
  -- The flowops that have the name.
  abbrev pub targets : List ℕ
  targets = found name s.shm_flowop ys []

  -- What the list of targets is after the first call.
  abbrev Listed : Listing R → (head : ℕ) → Type 0
  Listed r head =
      (ts' : Targets) × (s' : Flows R) × (r ≡ listed (some head) ts' s')
      × (ts'.fo_targets fo ≡ some head)
      × Chain ts'.fo_targetnext (some head) targets
      × (s'.shm_flowop ≡ s.shm_flowop)

  -- What the two flowops come to, by the list of targets.
  abbrev pub Served : (ℕ → SemPair) → (ℕ → Bool) → Bool → ℕ → List ℕ → Type 0
  Served semids fails blocking value [] =
      (links : ℕ → Option ℕ) × (flowoplib_wakeup fuel fo name ts s
        ≡ shut_down ts (record s { fo_resultnext = links }))
      × (flowoplib_sempost fuel semids fails blocking value fo name ts s
          ≡ shut_down ts (record s { fo_resultnext = links }))
  Served semids fails blocking value (head ∷ rest) =
      let others = drop_if (master_in s.shm_flowop) (head ∷ rest) in
      (ts' : Targets) × (s' : Flows R) × (flowoplib_wakeup fuel fo name ts s
        ≡ sent true others ts' s')
      × (flowoplib_sempost fuel semids fails blocking value fo name ts s
          ≡ sent (none_of fails others)
              (map (λ t. post blocking value (semids t)) (up_to fails others)) ts' s')
      × (flowoplib_wakeup fuel fo name ts' s' ≡ sent true others ts' s')
