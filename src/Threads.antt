-- ===== src/Threads.antt =====
-- filebench/threadflow.c and threadflow.h: the threads of a process as a linked list, and what defines,
-- starts, finds and ends them. A threadflow is named by its slot of shm_threadflow. Waiting for a
-- thread and signalling it are the system's: whether a thread stops by itself, and whether one can be
-- created, are arguments.
pub mod TakeOut
pub mod Delete
pub mod Init
pub mod Find
use filebench_pre_fsl.Base.{
  ℕ, zero, suc, ◌+◌, ◌-◌, ◌%◌, ◌^◌, Bool, true, false, not, ◌&&◌, Option, none, some, List, [], ◌∷◌,
  if◌then◌else◌, update,
}
use filebench_pre_fsl.Base.Int.{ℤ, pos, negsuc}
use filebench_pre_fsl.Ipc.{threadflow, ipc_malloc, Layout, address, ipc_free}
use filebench_pre_fsl.Vars.{Str, strcmp_eq}
use filebench_pre_fsl.Flows.{
  Flows, is_master, unlinked, null_head, out_of_fuel, unlink, flowop_delete_all,
}

-- `rest` is what the routines below only copy or clear.
pub record Threadflow (R : Type 0) : Type 0 where
  pub tf_name : Str
  -- THREADFLOW_USEISM in tf_attrs
  pub tf_useism : Bool
  pub tf_instance : ℤ
  pub tf_running : Bool
  pub tf_abort : Bool
  pub tf_utid : ℕ
  -- a slot of shm_procflow
  pub tf_process : ℕ
  -- a slot of shm_avd_ptrs
  pub tf_instances : Option ℕ
  pub tf_thrd_fops : Option ℕ
  pub tf_constmemsize : ℕ
  pub rest : R

pub record Threads (R Q : Type 0) : Type 0 where
  -- the flowops, and the allocation maps
  pub flows : Flows Q
  pub shm_threadflow : ℕ → Threadflow R
  pub tf_next : ℕ → Option ℕ
  -- of 64 bits
  pub shm_required : ℕ
  pub shm_utid : ℕ
  -- the threads that SIGKILL was sent to, the last one first
  pub killed : List ℕ

-- FLOW_MASTER
abbrev pub flow_master : ℤ
flow_master = negsuc 1

module _ {R Q : Type 0} where
  -- `stops` says of a thread whether it clears tf_running in the two seconds that it is given.
  unfoldable pub threadflow_kill : (stops : ℕ → Bool) → ℕ → Threads R Q → Threads R Q
  threadflow_kill stops t s =
      let th = s.shm_threadflow t in
      record s {
        shm_threadflow =
            update s.shm_threadflow t (record th { tf_abort = true; tf_running = false });
        killed = if th.tf_running && not (stops t) then t ∷ s.killed else s.killed;
      }

  -- `if (tf_attrs & THREADFLOW_USEISM) shm_required -= tf_constmemsize;`
  unfoldable pub release_memory : ℕ → Threads R Q → Threads R Q
  release_memory t s =
      let th = s.shm_threadflow t in
      if th.tf_useism
      then record s {
        shm_required = (s.shm_required + 2 ^ 64 - th.tf_constmemsize % 2 ^ 64) % 2 ^ 64;
      }
      else s

  -- The kill, the flowops of the thread, and its slot; `none` where flowop_delete_all gives none.
  unfoldable pub end_thread :
      (fuel reach : ℕ) → Layout → (stops : ℕ → Bool) → ℕ → Threads R Q → Option (Threads R Q)
  unfolding threadflow_kill
  end_thread fuel reach l stops t s =
      let u = threadflow_kill stops t s in
      elim (flowop_delete_all fuel reach l ((u.shm_threadflow t).tf_thrd_fops) u.flows) [
        | none ↦ none
        | some (fops, flows') ↦ some (record u {
          flows = record flows' {
            ipc = ipc_free l flows'.ipc threadflow (some (address l threadflow t));
          };
          shm_threadflow =
              update u.shm_threadflow t (record (u.shm_threadflow t) { tf_thrd_fops = fops });
        })
      ]

  -- The head of the list, the state, and whether the threadflow was found. Both searches of the list
  -- are those of Flows.unlink, with its NULL link; what is unlinked is freed, but not overwritten.
  unfoldable pub threadflow_delete :
      (fuel reach : ℕ)
      → Layout
      → (stops : ℕ → Bool) → (threadlist : Option ℕ) → (threadflow : ℕ) → Threads R Q
      → Option (Bool × Option ℕ × Threads R Q)
  unfolding unlink release_memory end_thread
  threadflow_delete fuel reach l stops threadlist t s =
      let u = release_memory t s in
      elim (unlink reach threadlist u.tf_next t) [
        | null_head ↦ none
        | out_of_fuel ↦ none
        | unlinked found head next ↦
            if found
            then (elim (end_thread fuel reach l stops t u) [
              | none ↦ none
              | some v ↦ some (true, head, record v { tf_next = next })
            ])
            else some (false, threadlist, u)
      ]

  -- The loop of threadflow_delete_all; the link of a deleted threadflow is read from its free slot.
  unfoldable pub delete_threads :
      (fuel reach : ℕ)
      → Layout
      → (stops : ℕ → Bool) → (cursor threadlist : Option ℕ) → Threads R Q
      → Option (Option ℕ × Threads R Q)
  unfolding threadflow_delete is_master
  delete_threads fuel reach l stops none threadlist s = some (threadlist, s)
  delete_threads zero reach l stops (some t) threadlist s = none
  delete_threads (suc fuel) reach l stops (some t) threadlist s =
      let kept = delete_threads fuel reach l stops (s.tf_next t) threadlist s in
      if is_master ((s.shm_threadflow t).tf_instance)
      then kept
      else elim (threadflow_delete reach reach l stops threadlist t s) [
        | none ↦ none
        | some (_, head, u) ↦ delete_threads fuel reach l stops (u.tf_next t) head u
      ]

  unfoldable pub threadflow_delete_all :
      (fuel reach : ℕ)
      → Layout
      → (stops : ℕ → Bool) → (threadlist : Option ℕ) → Threads R Q
      → Option (Option ℕ × Threads R Q)
  unfolding delete_threads
  threadflow_delete_all fuel reach l stops threadlist s =
      delete_threads fuel reach l stops threadlist threadlist s

  -- memcpy of the ancestor, or all fields cleared, with the process for that of tf_process.
  unfoldable pub inherited : R → Option ℕ → (process : ℕ) → Threads R Q → Threadflow R
  inherited zeros none p s = record {
    tf_name = [];
    tf_useism = false;
    tf_instance = pos 0;
    tf_running = false;
    tf_abort = false;
    tf_utid = 0;
    tf_process = p;
    tf_instances = none;
    tf_thrd_fops = none;
    tf_constmemsize = 0;
    rest = zeros;
  }
  inherited zeros (some inherit) p s = record (s.shm_threadflow inherit) { tf_process = p }

  -- The new threadflow, or NULL, with the head pf_threads of the list and the state.
  unfoldable pub threadflow_define_common :
      (zeros : R)
      → (procflow : ℕ) → (name : Option Str) → (inherit : Option ℕ) → (instance : ℤ)
      → (pf_threads : Option ℕ) → Threads R Q
      → Option ℕ × Option ℕ × Threads R Q
  unfolding inherited
  threadflow_define_common zeros p none inherit instance head s = (none, head, s)
  threadflow_define_common zeros p (some name) inherit instance head s =
      let (slot, ipc') = ipc_malloc s.flows.ipc threadflow in
      elim slot [
        | none ↦ (none, head, s)
        | some t ↦ (
          some t,
          some t,
          record s {
            flows = record s.flows { ipc = ipc' };
            shm_threadflow = update s.shm_threadflow t (record (inherited zeros inherit p s) {
              tf_utid = s.shm_utid + 1;
              tf_instance = instance;
              tf_name = name;
            });
            tf_next = update s.tf_next t head;
            shm_utid = s.shm_utid + 1;
          },
        )
      ]

  -- `threadflow->tf_instances = instances;`, where the threadflow was defined.
  unfoldable pub set_instances :
      Option ℕ → Option ℕ × Option ℕ × Threads R Q → Option ℕ × Option ℕ × Threads R Q
  set_instances instances (none, head, u) = (none, head, u)
  set_instances instances (some t, head, u) = (
    some t,
    head,
    record u {
      shm_threadflow =
          update u.shm_threadflow t (record (u.shm_threadflow t) { tf_instances = instances });
    },
  )

  -- The threadflow is `none` where it could not be defined; shm_threadflow_lock is held then.
  unfoldable pub threadflow_define :
      (zeros : R)
      → (procflow : ℕ) → (name : Option Str) → (inherit instances pf_threads : Option ℕ)
      → Threads R Q
      → Option ℕ × Option ℕ × Threads R Q
  unfolding threadflow_define_common set_instances
  threadflow_define zeros p name inherit instances head s =
      set_instances instances (threadflow_define_common zeros p name inherit flow_master head s)

  unfoldable pub threadflow_find :
      (fuel : ℕ) → (threadlist : Option ℕ) → Str → Threads R Q → Option (Option ℕ)
  threadflow_find fuel none name s = some none
  threadflow_find zero (some t) name s = none
  threadflow_find (suc fuel) (some t) name s =
      let rest = threadflow_find fuel (s.tf_next t) name s in
      if strcmp_eq name ((s.shm_threadflow t).tf_name) then some (some t) else rest
