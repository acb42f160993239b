-- ===== src/Flows/Targets.antt =====
-- filebench/flowop_library.c: flowoplib_wakeup, flowoplib_sempost and flowoplib_semblock, in a build with
-- System V semaphores. What is asked of the system is recorded; a thread that waits in a call is the
-- system's. filebench_shutdown is called for a name that no flowop has; where it returns, because the
-- run has ended before, FILEBENCH_OK follows with nothing asked for.
pub mod Links
pub mod Laws
use filebench_pre_fsl.Base.{
  ℕ, zero, suc, Bool, true, false, Option, none, some, List, [], ◌∷◌, if◌then◌else◌, update,
}
use filebench_pre_fsl.Base.Int.{ℤ, pos, negate}
use filebench_pre_fsl.Vars.{Str}
use filebench_pre_fsl.Flows.{Flowop, Flows, is_master, flowop_find}

-- fo_targets and fo_targetnext, by flowop.
pub record Targets : Type 0 where
  pub fo_targets : ℕ → Option ℕ
  pub fo_targetnext : ℕ → Option ℕ

-- `while (result) { result->fo_targetnext = result->fo_resultnext; … }`
unfoldable pub link_targets :
    (fuel : ℕ)
    → (fo_resultnext : ℕ → Option ℕ) → (result : Option ℕ) → (ℕ → Option ℕ)
    → Option (ℕ → Option ℕ)
link_targets fuel resultnext none targetnext = some targetnext
link_targets zero resultnext (some t) targetnext = none
link_targets (suc fuel) resultnext (some t) targetnext =
    link_targets fuel resultnext (resultnext t) (update targetnext t (resultnext t))

-- The list of targets, made on the first call.
pub data Listing (R : Type 0) : Type 0 where
  listed : (target : Option ℕ) → Targets → Flows R → Listing R
  -- filebench_shutdown(1), and the state where it returns: there is no target
  shutdown : Targets → Flows R → Listing R
  out_of_fuel : Listing R

unfoldable pub target_list :
    {R : Type 0} → (fuel : ℕ) → (flowop : ℕ) → (fo_targetname : Str) → Targets → Flows R → Listing R
unfolding flowop_find link_targets
target_list fuel fo name ts s = elim (ts.fo_targets fo) [
  | some t ↦ listed (some t) ts s
  | none ↦ elim (flowop_find fuel name s) [
    | none ↦ out_of_fuel
    | some (result, s') ↦ elim result [
      | none ↦ shutdown ts s'
      | some r ↦ elim (link_targets fuel s'.fo_resultnext (some r) ts.fo_targetnext) [
        | none ↦ out_of_fuel
        | some targetnext ↦
            listed (some r)
              (record { fo_targets = update ts.fo_targets fo (some r); fo_targetnext = targetnext })
              s'
      ]
    ]
  ]
]

-- How a wakeup or a post ends: FILEBENCH_OK or FILEBENCH_ERROR, with what was asked of the system.
pub data Sent (R Ask : Type 0) : Type 0 where
  sent : (ok : Bool) → List Ask → Targets → Flows R → Sent R Ask
  shut_down : Targets → Flows R → Sent R Ask
  no_fuel : Sent R Ask

-- The loop over the targets, without the masters; each is served, and `fails` ends it with an error.
unfoldable pub serve :
    {R Ask : Type 0}
    → (fuel : ℕ) → (ask : ℕ → Ask) → (fails : ℕ → Bool) → Targets
    → Flows R
    → (target : Option ℕ) → Option (Bool × List Ask)
unfolding is_master
serve fuel ask fails ts s none = some (true, [])
serve zero ask fails ts s (some t) = none
serve (suc fuel) ask fails ts s (some t) =
    let rest = serve fuel ask fails ts s (ts.fo_targetnext t) in
    if is_master ((s.shm_flowop t).fo_instance)
    then rest
    else if fails t
    then some (false, ask t ∷ [])
    else elim rest [ none ↦ none | some (ok, asks) ↦ some (ok, ask t ∷ asks) ]

unfoldable pub send :
    {R Ask : Type 0} → (fuel : ℕ) → (ask : ℕ → Ask) → (fails : ℕ → Bool) → Listing R → Sent R Ask
unfolding serve
send fuel ask fails (listed target ts s) = elim (serve fuel ask fails ts s target) [
  | none ↦ no_fuel
  | some (ok, asks) ↦ sent ok asks ts s
]
send fuel ask fails (shutdown ts s) = shut_down ts s
send fuel ask fails out_of_fuel = no_fuel

-- The pthread_cond_broadcast of fo_cv under the target's fo_lock, by target; each is one operation.
unfoldable pub flowoplib_wakeup :
    {R : Type 0} → (fuel : ℕ) → (flowop : ℕ) → (fo_targetname : Str) → Targets → Flows R → Sent R ℕ
unfolding target_list send
flowoplib_wakeup fuel fo name ts s = send fuel (λ t. t) (λ t. false) (target_list fuel fo name ts s)

-- struct sembuf, with no flags; fo_value fits its short.
pub record Sembuf : Type 0 where
  pub sem_num : ℕ
  pub sem_op : ℤ

-- The semaphores of a flowop: fo_semid_lw and fo_semid_hw.
pub record SemPair : Type 0 where
  pub lw : ℕ
  pub hw : ℕ

-- The operations of a post: on the low water, and if it blocks on the high water.
unfoldable pub post : (blocking : Bool) → (value : ℕ) → SemPair → List Sembuf
post blocking value ids =
    record { sem_num = ids.lw; sem_op = pos value }
    ∷ (if blocking then record { sem_num = ids.hw; sem_op = negate (pos value) } ∷ [] else [])

-- `fails` says of which targets semop fails with an errno other than EAGAIN. On success there is one
-- flowop_endop at the end.
unfoldable pub flowoplib_sempost :
    {R : Type 0}
    → (fuel : ℕ) → (semids : ℕ → SemPair) → (fails : ℕ → Bool) → (blocking : Bool) → (value : ℕ)
    → (flowop : ℕ) → (fo_targetname : Str) → Targets
    → Flows R
    → Sent R (List Sembuf)
unfolding target_list send post
flowoplib_sempost fuel semids fails blocking value fo name ts s =
    send fuel (λ t. post blocking value (semids t)) fails (target_list fuel fo name ts s)

-- The two calls of semop in flowoplib_semblock, whose answers are not looked at.
unfoldable pub flowoplib_semblock : SemPair → (value : ℕ) → List (List Sembuf)
flowoplib_semblock ids value =
    (record { sem_num = ids.hw; sem_op = pos value } ∷ [])
    ∷ (record { sem_num = ids.lw; sem_op = negate (pos value) } ∷ [])
    ∷ []
