-- ===== src/Procs.antt =====
-- filebench/procflow.c and procflow.h: the list of processes, in a build with the process model. A
-- procflow is named by its slot of shm_procflow. When a process stops is the system's: an argument.
pub mod Cleanup
pub mod Shutdown
use filebench_pre_fsl.Base.{
  ℕ, zero, suc, ◌+◌, ◌-◌, ◌%◌, Bool, true, false, not, ◌&&◌, Option, none, some, List, [], ◌∷◌,
  ◌==◌, if◌then◌else◌, update,
}
use filebench_pre_fsl.Base.Int.{ℤ, pos, exceeds}
use filebench_pre_fsl.Ipc.{Shm, procflow, ipc_malloc, Layout, address, ipc_free}
use filebench_pre_fsl.Vars.{Str, strcmp_eq}
use filebench_pre_fsl.Flows.{is_master, same_instance}
use filebench_pre_fsl.Flows.Worker.{Abort, abort_done, abort_fini, is_set}
use filebench_pre_fsl.Threads.{flow_master}

-- `rest` is what the routines below only copy or clear.
pub record Procflow (R : Type 0) : Type 0 where
  pub pf_name : Str
  pub pf_instance : ℤ
  -- a slot of shm_avd_ptrs
  pub pf_instances : Option ℕ
  pub pf_running : Bool
  pub rest : R

pub record Procs (R : Type 0) : Type 0 where
  pub ipc : Shm
  pub shm_procflow : ℕ → Procflow R
  pub pf_next : ℕ → Option ℕ
  pub shm_proclist : Option ℕ
  pub shm_procs_running : ℤ
  pub shm_f_abort : Abort
  -- the processes that SIGUSR1 was sent to, the last one first
  pub signalled : List ℕ

-- The seconds that procflow_sleep sleeps, where `runs` says what pf_running is after so many of them.
-- pf_running is 0 or 1: `pf_running & wait_cnt` is the lowest bit of wait_cnt, or 0.
unfoldable pub procflow_sleep : (runs : ℕ → Bool) → (slept wait_cnt : ℕ) → ℕ
procflow_sleep runs slept zero = 0
procflow_sleep runs slept (suc wait_cnt) =
    let more = procflow_sleep runs (slept + 1) wait_cnt in
    if runs slept && (suc wait_cnt % 2 == 1) then suc more else 0

-- The last procflow whose link leads to the one that is sought, by the `while` of procflow_cleanup.
pub data Sought : Type 0 where
  found : ℕ → Sought
  not_found : Sought
  no_fuel : Sought

unfoldable pub seek : (fuel : ℕ) → (pf_next : ℕ → Option ℕ) → (entry : Option ℕ) → ℕ → Sought
seek fuel next none p = not_found
seek zero next (some e) p = no_fuel
seek (suc fuel) next (some e) p = elim (next e) [
  | none ↦ not_found
  | some n ↦ let further = seek fuel next (some n) p in if p == n then found e else further
]

abbrev pub is_fini : Abort → Bool
is_fini abort_fini = true
is_fini _ = false

module _ {R : Type 0} where
  unfoldable pub stop_running : ℕ → Procs R → Procs R
  stop_running p s = record s {
    shm_procflow = update s.shm_procflow p (record (s.shm_procflow p) { pf_running = false });
  }

  unfoldable pub free_procflow : Layout → ℕ → Procs R → Procs R
  free_procflow l p s = record s { ipc = ipc_free l s.ipc procflow (some (address l procflow p)) }

  -- Whether it returns 0; `none` out of fuel.
  unfoldable pub procflow_cleanup : (fuel : ℕ) → Layout → ℕ → Procs R → Option (Bool × Procs R)
  unfolding seek stop_running free_procflow
  procflow_cleanup fuel l p s =
      let t = stop_running p s in
      let at_head : Bool = elim t.shm_proclist [ none ↦ false | some h ↦ p == h ] in
      if at_head
      then some (true, free_procflow l p (record t { shm_proclist = t.pf_next p }))
      else elim (seek fuel t.pf_next t.shm_proclist p) [
        | no_fuel ↦ none
        | not_found ↦ some (false, t)
        | found e ↦
            some (true, free_procflow l p (record t { pf_next = update t.pf_next e (t.pf_next p) }))
      ]

  -- The loop of procflow_shutdown. `runs` says of a process what its pf_running is after so many
  -- seconds; one that still runs is signalled and waited for.
  unfoldable pub shutdown_from :
      (fuel reach : ℕ)
      → Layout
      → (runs : ℕ → ℕ → Bool) → (wait_cnt : ℕ) → (procflow : Option ℕ) → Procs R
      → Option (Procs R)
  unfolding procflow_sleep is_master
  shutdown_from fuel reach l runs wait none s = some s
  shutdown_from zero reach l runs wait (some p) s = none
  shutdown_from (suc fuel) reach l runs wait (some p) s =
      let next_procflow = s.pf_next p in
      let kept = shutdown_from fuel reach l runs wait next_procflow s in
      let t : Procs R = record s {
        signalled =
            if runs p (procflow_sleep (runs p) 0 wait) then p ∷ s.signalled else s.signalled;
      } in
      if is_master ((s.shm_procflow p).pf_instance)
      then kept
      else elim (procflow_cleanup reach l p t) [
        | none ↦ none
        | some (_, u) ↦ shutdown_from fuel reach l runs (wait - 1) next_procflow u
      ]

  -- SHUTDOWN_WAIT_SECONDS is 3.
  unfoldable pub procflow_shutdown :
      (fuel reach : ℕ) → Layout → (runs : ℕ → ℕ → Bool) → Procs R → Option (Procs R)
  unfolding shutdown_from
  procflow_shutdown fuel reach l runs s =
      let stopping = if is_set s.shm_f_abort then s.shm_f_abort else abort_done in
      let ended =
        shutdown_from fuel reach l runs 3 s.shm_proclist (record s { shm_f_abort = stopping }) in
      if not (exceeds s.shm_procs_running 0)
      then some s
      else if is_fini s.shm_f_abort
      then some s
      else elim ended [
        | none ↦ none
        | some u ↦ some (record u { shm_f_abort = abort_fini; shm_procs_running = pos 0 })
      ]

  unfoldable pub procflow_find :
      (fuel : ℕ) → (cursor : Option ℕ) → Str → ℤ → Procs R → Option (Option ℕ)
  procflow_find fuel none name instance s = some none
  procflow_find zero (some p) name instance s = none
  procflow_find (suc fuel) (some p) name instance s =
      let rest = procflow_find fuel (s.pf_next p) name instance s in
      if strcmp_eq name ((s.shm_procflow p).pf_name)
        && same_instance instance ((s.shm_procflow p).pf_instance)
      then some (some p)
      else rest

  unfoldable pub procflow_define_common :
      (zeros : R)
      → (name : Option Str) → (inherit : Option ℕ) → (instance : ℤ) → Procs R
      → Option ℕ × Procs R
  procflow_define_common zeros none inherit instance s = (none, s)
  procflow_define_common zeros (some name) inherit instance s =
      let (slot, ipc') = ipc_malloc s.ipc procflow in
      elim slot [
        | none ↦ (none, s)
        | some p ↦
            let copied : Procflow R = elim inherit [
              | none ↦ record {
                pf_name = [];
                pf_instance = pos 0;
                pf_instances = none;
                pf_running = false;
                rest = zeros;
              }
              | some i ↦ s.shm_procflow i
            ] in
            (
              some p,
              record s {
                ipc = ipc';
                shm_procflow =
                    update s.shm_procflow p
                      (record copied { pf_instance = instance; pf_name = name });
                pf_next = update s.pf_next p s.shm_proclist;
                shm_proclist = some p;
              },
            )
      ]

  -- `none` is the crash of following the NULL that procflow_define_common gives.
  unfoldable pub procflow_define :
      (zeros : R)
      → (name : Option Str) → (inherit instances : Option ℕ) → Procs R
      → Option (ℕ × Procs R)
  unfolding procflow_define_common
  procflow_define zeros name inherit instances s =
      let (slot, t) = procflow_define_common zeros name inherit flow_master s in
      elim slot [
        | none ↦ none
        | some p ↦ some (
          p,
          record t {
            shm_procflow =
                update t.shm_procflow p (record (t.shm_procflow p) { pf_instances = instances });
          },
        )
      ]
