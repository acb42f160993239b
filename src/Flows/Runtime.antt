-- ===== src/Flows/Runtime.antt =====
-- filebench/flowop.c: flowop_create_runtime_flowops, which copies a list of flowops of the script for
-- a thread, and the routines that define flowops for a name. fo_filename, and so fileset_find, is left
-- out, and the function fo_init of a flowop is an argument.
pub mod Copied
pub mod Made
pub mod Copies
use filebench_pre_fsl.Base.{
  ℕ, zero, suc, Bool, Option, none, some, List, [], ◌∷◌, ◌==◌, if◌then◌else◌, update,
}
use filebench_pre_fsl.Base.Int.{pos}
use filebench_pre_fsl.Limits.{FlowType, global, composite}
use filebench_pre_fsl.Vars.{Str}
use filebench_pre_fsl.Flows.{Flowop, Flows, flowop_define_common}

-- FILEBENCH_OK with the head of the new list; FILEBENCH_ERROR where a flowop could not be defined.
pub data Creation (R : Type 0) : Type 0 where
  created : (ops_list : Option ℕ) → Flows R → Creation R
  failed : (ops_list : Option ℕ) → Flows R → Creation R
  out_of_fuel : Creation R

-- `if (flowop == *ops_list_ptr) *ops_list_ptr = NULL;`
unfoldable pub reset_head : (ops_list : Option ℕ) → (flowop : ℕ) → Option ℕ
reset_head none fo = none
reset_head (some h) fo = if fo == h then none else some h

-- `consts` gives the rest of a flowop with fo_constvalue and fo_constwss saved; `fo_init` is the call
-- of the function that a flowop points to: whether it returns a value below 0, and the state.
module _ {R : Type 0} (consts : Flows R → Flowop R → R) where
  abbrev pub with_consts : (flowop : ℕ) → Flows R → Flows R
  with_consts n t = record t {
    shm_flowop =
        update t.shm_flowop n (record (t.shm_flowop n) { rest = consts t (t.shm_flowop n) });
  }

  unfoldable pub flowop_initflow :
      (fo_init : ℕ → Flows R → Bool × Flows R) → (flowop : ℕ) → Flows R → Bool × Flows R
  flowop_initflow fo_init n t = fo_init n (with_consts n t)

module _ {R : Type 0} (zeros : R) (consts : Flows R → Flowop R → R)
    (fo_init : ℕ → Flows R → Bool × Flows R) where
  -- The loop, in which a failed initialization is only logged; `reach` is the fuel of flowop_define_common.
  unfoldable pub create_from :
      (fuel reach : ℕ) → (thread : Option ℕ) → (flowop ops_list : Option ℕ) → Flows R → Creation R
  unfolding flowop_initflow
  create_from fuel reach thread none ops_list s = created ops_list s
  create_from zero reach thread (some fo) ops_list s = out_of_fuel
  create_from (suc fuel) reach thread (some fo) ops_list s =
      elim (flowop_define_common reach zeros thread (some (s.shm_flowop fo).fo_name) (some fo)
        (some (reset_head ops_list fo)) (pos 1) global s) [
          | none ↦ out_of_fuel
          | some (newflowop, list, t) ↦ elim newflowop [
            | none ↦ failed (reset_head ops_list fo) t
            | some n ↦ elim list [
              | none ↦ failed none t
              | some list' ↦
                  let u = (flowop_initflow consts fo_init n t).1 in
                  create_from fuel reach thread (u.fo_exec_next fo) list' u
            ]
          ]
        ]

  unfoldable pub flowop_create_runtime_flowops :
      (fuel reach : ℕ) → (thread : Option ℕ) → (ops_list : Option ℕ) → Flows R → Creation R
  unfolding create_from
  flowop_create_runtime_flowops fuel reach thread ops_list s =
      create_from fuel reach thread ops_list ops_list s
