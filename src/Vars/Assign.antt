-- ===== src/Vars/Assign.antt =====
-- filebench/vars.c: the routines that set script variables (var_assign_*, var_copy, the random
-- variables). The results 0 and -1 are `true` and `false`.
use filebench_pre_fsl.Base.{ℕ, Bool, true, false, Option, none, some, if◌then◌else◌}
use filebench_pre_fsl.Ipc.{randdist, ipc_malloc}
use filebench_pre_fsl.Ipc.Strings.{ipc_stralloc}
use filebench_pre_fsl.Vars.Eval.{read_bool, read_int}
use filebench_pre_fsl.Vars.{
  Str, skip_dollar, Scope, random, bool_set, int_set, dbl_set, str_set, indvar_set, rand_set,
  OpType, integer, dbl_flt, string, varptr2, Var, set_bool, set_int, set_dbl, set_str, set_rand,
  set_indvar, set_binop_indvar, has_indvar, Shared, set_var, var_alloc_cmn, var_find, find_or_alloc,
  var_find_alloc,
}

-- (var_type & VAR_TYPE_MASK) == VAR_TYPE_RANDOM
abbrev pub is_random : Scope → Bool
is_random random = true
is_random _ = false

-- Assigning a found or allocated variable; a random one is refused.
unfoldable pub assign_found : {D : Type 0} → (Var D → Var D) → Option ℕ × Shared D → Bool × Shared D
unfolding set_var
assign_found f (none, s) = (false, s)
assign_found f (some a, s) =
    if is_random ((s.vars a).scope) then (false, s) else (true, set_var s a (f (s.vars a)))

unfoldable pub var_assign_boolean : {D : Type 0} → Option Str → Bool → Shared D → Bool × Shared D
unfolding assign_found set_bool var_find_alloc
var_assign_boolean str b s = assign_found (λ v. set_bool v b) (var_find_alloc str s)

unfoldable pub var_assign_integer : {D : Type 0} → Option Str → ℕ → Shared D → Bool × Shared D
unfolding assign_found set_int var_find_alloc
var_assign_integer str n s = assign_found (λ v. set_int v n) (var_find_alloc str s)

-- The operand is looked up first; the union member is stored after VAR_SET_BINOP_INDVAR.
unfoldable pub binop_int_var : {D : Type 0} → Var D → ℕ → OpType → ℕ → Var D
unfolding set_binop_indvar
binop_int_var v src1 st n = record (set_binop_indvar v (some src1) st) { val = integer n }

unfoldable pub binop_var_var : {D : Type 0} → Var D → ℕ → OpType → ℕ → Var D
unfolding set_binop_indvar
binop_var_var v src1 st src2 = record (set_binop_indvar v (some src1) st) {
  val = varptr2 (some src2);
}

unfoldable pub var_assign_op_var_int :
    {D : Type 0} → Option Str → OpType → Str → ℕ → Shared D → Bool × Shared D
unfolding assign_found binop_int_var var_find_alloc var_find skip_dollar
var_assign_op_var_int str st src1 n s = elim (var_find s (skip_dollar src1)) [
  | none ↦ (false, s)
  | some p ↦ assign_found (λ v. binop_int_var v p st n) (var_find_alloc str s)
]

unfoldable pub var_assign_op_var_var :
    {D : Type 0} → Option Str → OpType → (src1 src2 : Str) → Shared D → Bool × Shared D
unfolding assign_found binop_var_var var_find_alloc var_find skip_dollar
var_assign_op_var_var str st src1 src2 s = elim (var_find s (skip_dollar src1)) [
  | none ↦ (false, s)
  | some p ↦ elim (var_find s (skip_dollar src2)) [
    | none ↦ (false, s)
    | some q ↦ assign_found (λ v. binop_var_var v p st q) (var_find_alloc str s)
  ]
]

-- ipc_stralloc for the text, then VAR_SET_STR; where it fails, the string pointer has moved.
unfoldable pub store_string : {D : Type 0} → Str → ℕ → Shared D → Bool × Shared D
unfolding set_var set_str
store_string text a s =
    let (p, r) = ipc_stralloc s.string_memory s.strings text in
    let t = record s { strings = r } in
    elim p [ none ↦ (false, t) | some _ ↦ (true, set_var t a (set_str (s.vars a) text)) ]

unfoldable pub var_assign_string : {D : Type 0} → Str → Str → Shared D → Bool × Shared D
unfolding store_string find_or_alloc skip_dollar
var_assign_string str text s =
    let (p, t) = find_or_alloc (skip_dollar str) s in
    elim p [
      | none ↦ (false, t)
      | some a ↦ if is_random ((t.vars a).scope) then (false, t) else store_string text a t
    ]

unfoldable pub put_var : {D : Type 0} → Shared D → ℕ → Var D → Option (Bool × Shared D)
unfolding set_var
put_var s a v = some (true, set_var s a v)

-- var_copy; a source that is unset, random or a binary operation copies nothing, with the result 0.
-- `none`: the member of the union that the type names is not there, or is a NULL string.
unfoldable pub var_copy : {D : Type 0} → (dst src : ℕ) → Shared D → Option (Bool × Shared D)
unfolding put_var set_bool set_int set_dbl set_indvar has_indvar store_string
var_copy dst src s =
    let from = s.vars src in
    elim (from.set_to) [
      | bool_set ↦ elim (read_bool from.val) [
        | none ↦ none
        | some b ↦ put_var s dst (set_bool (s.vars dst) b)
      ]
      | int_set ↦ elim (read_int from.val) [
        | none ↦ none
        | some n ↦ put_var s dst (set_int (s.vars dst) n)
      ]
      | dbl_set ↦ elim (from.val) [ dbl_flt d ↦ put_var s dst (set_dbl (s.vars dst) d) | _ ↦ none ]
      | str_set ↦ elim (from.val) [ string text ↦ some (store_string text dst s) | _ ↦ none ]
      | indvar_set ↦
          if has_indvar from
          then put_var s dst (set_indvar (s.vars dst) from.varptr1)
          else some (true, s)
      | _ ↦ some (true, s)
    ]

unfoldable pub var_assign_var : {D : Type 0} → (str src : Str) → Shared D → Option (Bool × Shared D)
unfolding var_copy find_or_alloc var_find skip_dollar
var_assign_var str src s = elim (var_find s (skip_dollar src)) [
  | none ↦ some (false, s)
  | some b ↦
      let (p, t) = find_or_alloc (skip_dollar str) s in
      elim p [
        | none ↦ some (false, t)
        | some a ↦ if is_random ((t.vars a).scope) then some (false, t) else var_copy a b t
      ]
]

-- The variable must be of random type and have its distribution.
unfoldable pub var_find_randvar : {D : Type 0} → Str → Shared D → Option ℕ
unfolding var_find skip_dollar
var_find_randvar str s = elim (var_find s (skip_dollar str)) [
  | none ↦ none
  | some a ↦ elim ((s.vars a).set_to) [
    | rand_set ↦ if is_random ((s.vars a).scope) then some a else none
    | _ ↦ none
  ]
]

-- Where no distribution is left, the new variable stays in the list without one.
unfoldable pub var_define_randvar : {D : Type 0} → Str → Shared D → Option ℕ × Shared D
unfolding var_find var_alloc_cmn skip_dollar set_var set_rand
var_define_randvar str s = elim (var_find s (skip_dollar str)) [
  | some a ↦ (none, s)
  | none ↦
      let (p, t) = var_alloc_cmn (skip_dollar str) random s in
      elim p [
        | none ↦ (none, t)
        | some a ↦
            let (slot, ipc') = ipc_malloc t.ipc randdist in
            elim slot [
              | none ↦ (none, t)
              | some r ↦
                  (some a, set_var (record t { ipc = ipc' }) a (set_rand (t.vars a) (some r)))
            ]
      ]
]
