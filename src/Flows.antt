-- ===== src/Flows.antt =====
-- filebench/flowop.c and flowop.h: the lists of flowops. A flowop is named by its slot of shm_flowop;
-- the links fo_next and fo_exec_next are maps from slots, and a list is the pointer to its head.
pub mod Chain
pub mod Delete
pub mod Define
pub mod Worker
pub mod Pass
pub mod Runtime
pub mod Targets
use filebench_pre_fsl.Base.{
  ℕ, zero, suc, Bool, true, false, not, ◌&&◌, Option, none, some, [], ◌==◌, if◌then◌else◌, update,
}
use filebench_pre_fsl.Base.Int.{ℤ, pos, negsuc}
use filebench_pre_fsl.Ipc.{Shm, flowop, avd, ipc_malloc, Layout, address, ipc_free}
use filebench_pre_fsl.Limits.{FlowType}
use filebench_pre_fsl.Vars.{Str, strcmp_eq}

-- The fields of flowop_t that the routines below set; `rest` is all that they only copy or clear.
pub record Flowop (R : Type 0) : Type 0 where
  pub fo_name : Str
  pub fo_instance : ℤ
  pub fo_type : FlowType
  pub fo_thread : Option ℕ
  -- a slot of shm_avd_ptrs
  pub fo_iters : Option ℕ
  pub rest : R

pub record Flows (R : Type 0) : Type 0 where
  pub ipc : Shm
  pub shm_flowop : ℕ → Flowop R
  pub fo_next : ℕ → Option ℕ
  pub fo_exec_next : ℕ → Option ℕ
  pub fo_resultnext : ℕ → Option ℕ
  pub shm_flowoplist : Option ℕ
  -- avd_val.intval of the attribute descriptors, by slot
  pub intval : ℕ → ℕ

-- FLOW_MASTER is -2.
unfoldable pub is_master : ℤ → Bool
is_master (negsuc (suc zero)) = true
is_master _ = false

-- Taking an element out of a list: the head, and whether it was there.
pub data Unlinked : Type 0 where
  unlinked : Bool → Option ℕ → (ℕ → Option ℕ) → Unlinked
  -- the link of a NULL head is followed
  null_head : Unlinked
  out_of_fuel : Unlinked

-- `while (entry->next) { if (flowop == entry->next) …; entry = entry->next; }`
unfoldable pub walk :
    (fuel : ℕ) → (head : Option ℕ) → (next : ℕ → Option ℕ) → (entry flowop : ℕ) → Unlinked
walk zero head next entry fo = out_of_fuel
walk (suc fuel) head next entry fo = elim (next entry) [
  | none ↦ unlinked false head next
  | some n ↦
      let rest = walk fuel head next n fo in
      if fo == n then unlinked true head (update next entry (next n)) else rest
]

unfoldable pub unlink :
    (fuel : ℕ) → (head : Option ℕ) → (next : ℕ → Option ℕ) → (flowop : ℕ) → Unlinked
unfolding walk
unlink fuel none next fo = null_head
unlink fuel (some h) next fo =
    if fo == h then unlinked true (next fo) next else walk fuel (some h) next h fo

-- A crash or the end of the fuel is `none`; the head of the thread's list comes back.
unfoldable pub flowop_delete :
    {R : Type 0}
    → (fuel : ℕ) → Layout
    → (flowoplist : Option ℕ) → (flowop : ℕ) → Flows R
    → Option (Option ℕ × Flows R)
unfolding unlink
flowop_delete fuel l flowoplist fo s = elim (unlink fuel flowoplist s.fo_exec_next fo) [
  | null_head ↦ none
  | out_of_fuel ↦ none
  | unlinked _ head exec ↦ elim (unlink fuel s.shm_flowoplist s.fo_next fo) [
    | null_head ↦ none
    | out_of_fuel ↦ none
    | unlinked found list next ↦ some (
      head,
      record s {
        fo_exec_next = exec;
        fo_next = next;
        shm_flowoplist = list;
        ipc = if found then ipc_free l s.ipc flowop (some (address l flowop fo)) else s.ipc;
      },
    )
  ]
]

-- The loop of flowop_delete_all, from a cursor on; `reach` is the fuel for each flowop_delete.
unfoldable pub delete_from :
    {R : Type 0}
    → (fuel reach : ℕ) → Layout
    → (cursor flowoplist : Option ℕ) → Flows R
    → Option (Option ℕ × Flows R)
unfolding is_master flowop_delete
delete_from fuel reach l none flowoplist s = some (flowoplist, s)
delete_from zero reach l (some fo) flowoplist s = none
delete_from (suc fuel) reach l (some fo) flowoplist s =
    let next_flowop = s.fo_exec_next fo in
    let kept = delete_from fuel reach l next_flowop flowoplist s in
    if is_master ((s.shm_flowop fo).fo_instance)
    then kept
    else elim (flowop_delete reach l flowoplist fo s) [
      | none ↦ none
      | some (head, t) ↦ delete_from fuel reach l next_flowop head t
    ]

unfoldable pub flowop_delete_all :
    {R : Type 0}
    → (fuel reach : ℕ) → Layout
    → (flowoplist : Option ℕ) → Flows R
    → Option (Option ℕ × Flows R)
unfolding delete_from
flowop_delete_all fuel reach l flowoplist s = delete_from fuel reach l flowoplist flowoplist s

-- The last element from an entry on.
unfoldable pub list_end : (fuel : ℕ) → (ℕ → Option ℕ) → ℕ → Option ℕ
list_end zero next e = none
list_end (suc fuel) next e = elim (next e) [ none ↦ some e | some n ↦ list_end fuel next n ]

-- The new flowop at the end of the list whose head pointer is given; `none` out of fuel.
unfoldable pub append :
    {R : Type 0} → (fuel : ℕ) → (head : Option ℕ) → ℕ → Flows R → Option (Option ℕ × Flows R)
unfolding list_end
append fuel none fo s = some (some fo, record s { fo_exec_next = update s.fo_exec_next fo none })
append fuel (some h) fo s = elim (list_end fuel s.fo_exec_next h) [
  | none ↦ none
  | some flowend ↦
      some (
        some h,
        record s { fo_exec_next = update (update s.fo_exec_next flowend (some fo)) fo none },
      )
]

-- A flowop without an ancestor: all fields cleared, fo_iters the constant 1.
unfoldable pub plain_flowop : {R : Type 0} → R → FlowType → ℕ → Flows R → Flows R
plain_flowop zeros type fo s =
    let (slot, ipc') = ipc_malloc s.ipc avd in
    record s {
      ipc = ipc';
      shm_flowop = update s.shm_flowop fo (record {
        fo_name = [];
        fo_instance = pos 0;
        fo_type = type;
        fo_thread = none;
        fo_iters = slot;
        rest = zeros;
      });
      intval = elim slot [ none ↦ s.intval | some d ↦ update s.intval d 1 ];
    }

-- memcpy of the ancestor, or a plain flowop; the links are cleared.
unfoldable pub initial : {R : Type 0} → R → Option ℕ → FlowType → ℕ → Flows R → Flows R
unfolding plain_flowop
initial zeros none type fo s =
    let t = plain_flowop zeros type fo s in
    record t {
      fo_next = update t.fo_next fo none;
      fo_exec_next = update t.fo_exec_next fo none;
      fo_resultnext = update t.fo_resultnext fo none;
    }
initial zeros (some inherit) type fo s = record s {
  shm_flowop = update s.shm_flowop fo (s.shm_flowop inherit);
  fo_next = update s.fo_next fo none;
  fo_exec_next = update s.fo_exec_next fo none;
  fo_resultnext = update s.fo_resultnext fo (s.fo_resultnext inherit);
}

-- Its thread, name and instance, and its place at the head of the global list.
unfoldable pub enter_global : {R : Type 0} → Option ℕ → Str → ℤ → ℕ → Flows R → Flows R
enter_global thread str instance fo s = record s {
  shm_flowop =
      update s.shm_flowop fo
        (record (s.shm_flowop fo) { fo_thread = thread; fo_name = str; fo_instance = instance });
  fo_next = update s.fo_next fo s.shm_flowoplist;
  shm_flowoplist = some fo;
}

-- What flowop_define_common gives: the flowop, the head of the list that it was appended to where
-- one was given, and the state. `none` out of fuel.
unfoldable pub flowop_define_common :
    {R : Type 0}
    → (fuel : ℕ) → (zeros : R) → (thread : Option ℕ) → (name : Option Str) → (inherit : Option ℕ)
    → (flowoplist_hdp : Option (Option ℕ)) → (instance : ℤ) → FlowType
    → Flows R
    → Option (Option ℕ × Option (Option ℕ) × Flows R)
unfolding initial enter_global append
flowop_define_common fuel zeros thread none inherit hdp instance type s = some (none, hdp, s)
flowop_define_common fuel zeros thread (some str) inherit hdp instance type s =
    let (slot, ipc') = ipc_malloc s.ipc flowop in
    elim slot [
      | none ↦ some (none, hdp, s)
      | some fo ↦
          let t =
            enter_global thread str instance fo
              (initial zeros inherit type fo (record s { ipc = ipc' })) in
          elim hdp [
            | none ↦ some (some fo, none, t)
            | some head ↦ elim (append fuel head fo t) [
              | none ↦ none
              | some (head', u) ↦ some (some fo, some head', u)
            ]
          ]
    ]

-- The loop of flowop_find over the global list.
unfoldable pub find_from :
    {R : Type 0}
    → (fuel : ℕ) → Str
    → (cursor result : Option ℕ) → Flows R
    → Option (Option ℕ × Flows R)
find_from fuel str none result s = some (result, s)
find_from zero str (some fo) result s = none
find_from (suc fuel) str (some fo) result s =
    let t = record s { fo_resultnext = update s.fo_resultnext fo result } in
    if strcmp_eq str ((s.shm_flowop fo).fo_name)
    then find_from fuel str (s.fo_next fo) (some fo) t
    else find_from fuel str (s.fo_next fo) result s

unfoldable pub flowop_find : {R : Type 0} → (fuel : ℕ) → Str → Flows R → Option (Option ℕ × Flows R)
unfolding find_from
flowop_find fuel str s = find_from fuel str s.shm_flowoplist none s

-- ℤ equality of the instance numbers.
unfoldable pub same_instance : ℤ → ℤ → Bool
same_instance (pos a) (pos b) = a == b
same_instance (negsuc a) (negsuc b) = a == b
same_instance _ _ = false

unfoldable pub find_one_from :
    {R : Type 0} → (fuel : ℕ) → Str → ℤ → Option ℕ → Flows R → Option (Option ℕ)
unfolding same_instance
find_one_from fuel str instance none s = some none
find_one_from zero str instance (some fo) s = none
find_one_from (suc fuel) str instance (some fo) s =
    let rest = find_one_from fuel str instance (s.fo_next fo) s in
    if strcmp_eq str ((s.shm_flowop fo).fo_name)
      && same_instance instance ((s.shm_flowop fo).fo_instance)
    then some (some fo)
    else rest

unfoldable pub flowop_find_one : {R : Type 0} → (fuel : ℕ) → Str → ℤ → Flows R → Option (Option ℕ)
unfolding find_one_from
flowop_find_one fuel str instance s = find_one_from fuel str instance s.shm_flowoplist s
