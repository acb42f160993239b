-- ===== src/Tests/Flows.antt =====
-- Runs of the model of filebench/flowop.c.
use filebench_pre_fsl.Base.{
  ℕ, zero, suc, ◌+◌, ◌≡◌, refl, false, Option, none, some, List, [], ◌∷◌, arith,
}
use filebench_pre_fsl.Base.Int.{ℤ, pos, negsuc}
use filebench_pre_fsl.Ipc.{Layout}
use filebench_pre_fsl.Limits.{io}
use filebench_pre_fsl.Flows.{Flowop, Flows, flowop_delete_all}
use filebench_pre_fsl.Flows.Delete.{
  Shows, view, Deleted, master_in, take_out_others, flowop_delete_all-Deleted,
}
use filebench_pre_fsl.Flows.Worker.{Ret, ret_ok, Run, running, flowop_composite}
use filebench_pre_fsl.Flows.Pass.{inner_pass, flowop_composite_refines}

abbrev pub one : ℤ → Flowop ℕ
one i = record {
  fo_name = 114 ∷ [];
  fo_instance = i;
  fo_type = io;
  fo_thread = some 0;
  fo_iters = none;
  rest = 0;
}

-- The slots 1, 2 and 3, where 2 is a master: in this order in the thread's list, 4 before them in
-- the global one.
abbrev pub ops : ℕ → Flowop ℕ
ops (suc (suc zero)) = one (negsuc 1)
ops n = one (pos 1)

abbrev pub exec : ℕ → Option ℕ
exec (suc zero) = some 2
exec (suc (suc zero)) = some 3
exec n = none

abbrev pub next : ℕ → Option ℕ
next (suc (suc (suc (suc zero)))) = some 3
next (suc (suc (suc zero))) = some 2
next (suc (suc zero)) = some 1
next n = none

abbrev pub flows : Flows ℕ
flows = record {
  ipc = record {
    memsize = 2;
    bitmap = λ t n. (elim n [ zero ↦ 0 | suc k ↦ elim k [ zero ↦ 1 | suc j ↦ 1 ] ]);
    last = λ t. 4;
  };
  shm_flowop = ops;
  fo_next = next;
  fo_exec_next = exec;
  fo_resultnext = λ _. none;
  shm_flowoplist = some 4;
  intval = λ _. 0;
}

abbrev pub thread_list : List ℕ
thread_list = 1 ∷ 2 ∷ 3 ∷ []

abbrev pub global_list : List ℕ
global_list = 4 ∷ 3 ∷ 2 ∷ 1 ∷ []

pub flows-Shows : Shows (some 1) flows (view thread_list global_list flows.ipc)
flows-Shows = record {
  thread = (refl, (refl, (refl, refl)));
  global = (refl, (refl, (refl, (refl, refl))));
  thread_once = ((λ e. omega arith, (λ e. omega arith, tt)), ((λ e. omega arith, tt), (tt, tt)));
  global_once = (
    (λ e. omega arith, (λ e. omega arith, (λ e. omega arith, tt))),
    ((λ e. omega arith, (λ e. omega arith, tt)), ((λ e. omega arith, tt), (tt, tt))),
  );
  ipc = refl;
}

abbrev layout : Layout
layout = record { size_of = λ t. 24; size_of_pointer = 8; base = λ t. 1000 }

flowop_delete_all-Deleted_example :
    Deleted
      (flowop_delete_all 3 4 layout (some 1) flows)
      ops
      (take_out_others layout (master_in ops) thread_list (view thread_list global_list flows.ipc))
flowop_delete_all-Deleted_example =
    flowop_delete_all-Deleted 3 4 layout thread_list global_list (some 1) flows (omega arith)
      (omega arith) (omega arith) (refl, (refl, (refl, tt))) flows-Shows

-- Flowops that add their slot up, and are called twice.
abbrev func : ℕ → Run ℕ → Ret × Run ℕ
func fo r = (ret_ok, record r { world = r.world + fo })

abbrev twice : ℕ → Run ℕ → ℕ × Run ℕ
twice fo r = (2, r)

abbrev begun : Run ℕ
begun = record { world = 0; tf_abort = false; shm_f_abort = running; fs_count = 0 }

flowop_composite_refines_example :
    flowop_composite func twice exec 3 (some 1) begun
    ≡ some (inner_pass func twice exec thread_list begun)
flowop_composite_refines_example =
    flowop_composite_refines func twice exec 3 (some 1) thread_list begun
      (refl, (refl, (refl, refl))) (omega arith)
