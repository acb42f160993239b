-- ===== src/Vars/Local.antt =====
-- filebench/vars.c: variables that are local to a composite flowop (var_lvar_assign_*,
-- var_update_comp_lvars). NULL results are `none`.
use filebench_pre_fsl.Base.{ℕ, Bool, true, false, Option, none, some, List, if◌then◌else◌}
use filebench_pre_fsl.Vars.{
  Str, skip_dollar, Scope, local, SetTo, unset, bool_set, int_set, str_set, dbl_set, rand_set,
  string, Var, set_bool, set_int, set_dbl, set_rand, set_indvar, has_indvar, Shared, set_var,
  var_lvar_alloc_local, var_find, var_find_list_only,
}
use filebench_pre_fsl.Vars.Eval.{Doubles, read_bool, read_int, read_dbl, read_randptr}
use filebench_pre_fsl.Vars.Assign.{var_copy, store_string}

-- A newly allocated local variable, set by one of the macros.
unfoldable pub set_new : {D : Type 0} → (Var D → Var D) → Option ℕ × Shared D → Option ℕ × Shared D
unfolding set_var
set_new f (none, s) = (none, s)
set_new f (some a, s) = (some a, set_var s a (f (s.vars a)))

unfoldable pub var_lvar_assign_boolean : {D : Type 0} → Str → Bool → Shared D → Option ℕ × Shared D
unfolding set_new set_bool var_lvar_alloc_local
var_lvar_assign_boolean str b s = set_new (λ v. set_bool v b) (var_lvar_alloc_local str s)

unfoldable pub var_lvar_assign_integer : {D : Type 0} → Str → ℕ → Shared D → Option ℕ × Shared D
unfolding set_new set_int var_lvar_alloc_local
var_lvar_assign_integer str n s = set_new (λ v. set_int v n) (var_lvar_alloc_local str s)

unfoldable pub var_lvar_assign_double : {D : Type 0} → Str → D → Shared D → Option ℕ × Shared D
unfolding set_new set_dbl var_lvar_alloc_local
var_lvar_assign_double str d s = set_new (λ v. set_dbl v d) (var_lvar_alloc_local str s)

-- VAR_SET_STR on a copy of the text; NULL where the copy finds no room.
unfoldable pub store_new : {D : Type 0} → Str → ℕ → Shared D → Option ℕ × Shared D
unfolding store_string
store_new text a s = let (done, t) = store_string text a s in (if done then some a else none, t)

unfoldable pub var_lvar_assign_string :
    {D : Type 0} → (str text : Str) → Shared D → Option ℕ × Shared D
unfolding store_new var_lvar_alloc_local
var_lvar_assign_string str text s =
    let (p, t) = var_lvar_alloc_local str s in
    elim p [ none ↦ (none, t) | some a ↦ store_new text a t ]

unfoldable pub put_new : {D : Type 0} → Shared D → ℕ → Var D → Option (Option ℕ × Shared D)
unfolding set_var
put_new s a v = some (some a, set_var s a v)

-- The chain of tests on the source; a double is converted to an integer. `none`: the member of the
-- union that the type names is not there, or is a NULL string.
unfoldable pub copy_new :
    {D : Type 0} → Doubles D → (dst src : ℕ) → Shared D → Option (Option ℕ × Shared D)
unfolding put_new set_bool set_int set_rand store_new
copy_new F dst src s =
    let from = s.vars src in
    elim (from.set_to) [
      | bool_set ↦ elim (read_bool from.val) [
        | none ↦ none
        | some b ↦ put_new s dst (set_bool (s.vars dst) b)
      ]
      | int_set ↦ elim (read_int from.val) [
        | none ↦ none
        | some n ↦ put_new s dst (set_int (s.vars dst) n)
      ]
      | str_set ↦ elim (from.val) [ string text ↦ some (store_new text dst s) | _ ↦ none ]
      | dbl_set ↦ elim (read_dbl F from.val) [
        | none ↦ none
        | some d ↦ put_new s dst (set_int (s.vars dst) (F.to_int d))
      ]
      | rand_set ↦ elim (read_randptr from.val) [
        | none ↦ none
        | some r ↦ put_new s dst (set_rand (s.vars dst) r)
      ]
      | _ ↦ some (some dst, s)
    ]

abbrev pub is_local : Scope → Bool
is_local local = true
is_local _ = false

unfoldable pub var_lvar_assign_var :
    {D : Type 0} → Doubles D → (str src : Str) → Shared D → Option (Option ℕ × Shared D)
unfolding copy_new set_var set_indvar var_find skip_dollar var_lvar_alloc_local
var_lvar_assign_var F str src s = elim (var_find s (skip_dollar src)) [
  | none ↦ some (none, s)
  | some b ↦
      let (p, t) = var_lvar_alloc_local str s in
      elim p [
        | none ↦ some (none, t)
        | some a ↦
            if is_local ((t.vars b).scope)
            then some (some a, set_var t a (set_indvar (t.vars a) (some b)))
            else copy_new F a b t
      ]
]

abbrev pub is_unset : SetTo → Bool
is_unset unset = true
is_unset _ = false

-- `if (VAR_HAS_INDVAR(uplvp)) VAR_SET_INDVAR(newlvar, uplvp->var_varptr1);` with a pointer that may
-- be NULL, which is followed: `none`.
unfoldable pub collapse : {D : Type 0} → (newlvar : ℕ) → Option ℕ → Shared D → Option (Shared D)
unfolding set_var set_indvar has_indvar
collapse newlvar none s = none
collapse newlvar (some up) s =
    if has_indvar (s.vars up)
    then some (set_var s newlvar (set_indvar (s.vars newlvar) ((s.vars up).varptr1)))
    else some s

-- The second half of var_update_comp_lvars; `none` for the master list is a NULL list.
unfoldable pub update_indirect :
    {D : Type 0} → (newlvar proto : ℕ) → Option (List ℕ) → Shared D → Option (Shared D)
unfolding collapse set_var set_indvar var_find_list_only
update_indirect newlvar proto mstr_lvars s = elim ((s.vars proto).varptr1) [
  | none ↦ elim mstr_lvars [ none ↦ collapse newlvar none s | some _ ↦ none ]
  | some up ↦ elim mstr_lvars [
    | none ↦ collapse newlvar (some up) s
    | some list ↦
        let found = var_find_list_only s.vars ((s.vars up).name) list in
        collapse newlvar found (set_var s newlvar (set_indvar (s.vars newlvar) found))
  ]
]

-- `none`: a NULL pointer is followed, or var_copy cannot read the union.
unfoldable pub var_update_comp_lvars :
    {D : Type 0}
    → (newlvar : ℕ) → (proto_comp_vars : List ℕ) → (mstr_lvars : Option (List ℕ)) → Shared D
    → Option (Shared D)
unfolding update_indirect var_copy has_indvar var_find_list_only
var_update_comp_lvars newlvar proto_comp_vars mstr_lvars s =
    elim (var_find_list_only s.vars ((s.vars newlvar).name) proto_comp_vars) [
      | none ↦ some s
      | some proto ↦
          elim (if is_unset ((s.vars newlvar).set_to)
            then var_copy newlvar proto s
            else some (true, s)) [
              | none ↦ none
              | some (_, t) ↦
                  if has_indvar (t.vars proto)
                  then update_indirect newlvar proto mstr_lvars t
                  else some t
            ]
    ]
