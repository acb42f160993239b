-- ===== src/Vars/Inv/Assigned.antt =====
-- filebench/vars.c: the assigning routines keep a state of the variables well-formed.
use filebench_pre_fsl.Base.{ℕ, ◌≡◌, refl, inl, inr, Bool, Option, none, some, if_elim, Option-cases}
use filebench_pre_fsl.Ipc.Strings.{Region, ipc_stralloc}
use filebench_pre_fsl.Vars.{
  Str, skip_dollar, global, OpType, Var, set_bool, set_int, set_str, set_binop_indvar, Shared,
  var_alloc, var_find, find_or_alloc, var_find_alloc,
}
use filebench_pre_fsl.Vars.Find.{or_else-none}
use filebench_pre_fsl.Vars.Inv.{Fits, Sound, set_var-Sound}
use filebench_pre_fsl.Vars.Inv.Alloc.{strings-Sound}
use filebench_pre_fsl.Vars.Inv.New.{var_alloc_cmn-Sound}
use filebench_pre_fsl.Vars.Assign.{
  is_random, assign_found, var_assign_boolean, var_assign_integer, binop_int_var, binop_var_var,
  var_assign_op_var_int, var_assign_op_var_var, store_string, var_assign_string,
}

module _ {D : Type 0} where
  pub find_or_alloc-Sound : (s : Shared D) (str : Str) → Sound s → Sound (find_or_alloc str s).1
  unfolding find_or_alloc var_find var_alloc
  find_or_alloc-Sound s str sound = elim (Option-cases (var_find s str)) [
    | inl nothing ↦
        rw (nothing, find_or_alloc)
          (var_alloc_cmn-Sound s str global sound (or_else-none _ _ nothing).1)
    | inr (a, found) ↦ rw (found, find_or_alloc) sound
  ]

  var_find_alloc-Sound :
      (s : Shared D) (str : Option Str) → Sound s → Sound (var_find_alloc str s).1
  unfolding var_find_alloc
  var_find_alloc-Sound s none sound = sound
  var_find_alloc-Sound s (some str) sound = find_or_alloc-Sound s (skip_dollar str) sound

  -- A change of a variable that keeps its name, and after which the union fits the type.
  abbrev pub Setter : (Var D → Var D) → Type 0
  Setter f = (v : Var D) → ((f v).name ≡ v.name) × Fits ((f v).set_to) ((f v).val)

  assign_found-Sound :
      (f : Var D → Var D) (r : Option ℕ × Shared D)
      → Setter f
      → Sound (r.1)
      → Sound (assign_found f r).1
  unfolding assign_found
  assign_found-Sound f (none, s) h sound = sound
  assign_found-Sound f (some a, s) h sound =
      if_elim (λ (r : Bool × Shared D). Sound r.1) (is_random ((s.vars a).scope)) (λ _. sound)
        (λ _. set_var-Sound s a (f (s.vars a)) (h (s.vars a)).0 (h (s.vars a)).1 sound)

  pub var_assign_boolean-Sound :
      (s : Shared D) (str : Option Str) (b : Bool) → Sound s → Sound (var_assign_boolean str b s).1
  unfolding var_assign_boolean set_bool
  var_assign_boolean-Sound s str b sound =
      assign_found-Sound (λ v. set_bool v b) (var_find_alloc str s) (λ v. (refl, (b, refl)))
        (var_find_alloc-Sound s str sound)

  pub var_assign_integer-Sound :
      (s : Shared D) (str : Option Str) (n : ℕ) → Sound s → Sound (var_assign_integer str n s).1
  unfolding var_assign_integer set_int
  var_assign_integer-Sound s str n sound =
      assign_found-Sound (λ v. set_int v n) (var_find_alloc str s) (λ v. (refl, (n, refl)))
        (var_find_alloc-Sound s str sound)

  pub var_assign_op_var_int-Sound :
      (s : Shared D) (str : Option Str) (st : OpType) (src1 : Str) (n : ℕ)
      → Sound s
      → Sound (var_assign_op_var_int str st src1 n s).1
  unfolding var_assign_op_var_int binop_int_var set_binop_indvar
  var_assign_op_var_int-Sound s str st src1 n sound =
      elim (Option-cases (var_find s (skip_dollar src1))) [
        | inl nothing ↦ rw (nothing, var_assign_op_var_int) sound
        | inr (p, found) ↦
            rw (found, var_assign_op_var_int)
              (assign_found-Sound (λ v. binop_int_var v p st n) (var_find_alloc str s)
                (λ v. (refl, tt)) (var_find_alloc-Sound s str sound))
      ]

  pub var_assign_op_var_var-Sound :
      (s : Shared D) (str : Option Str) (st : OpType) (src1 src2 : Str)
      → Sound s
      → Sound (var_assign_op_var_var str st src1 src2 s).1
  unfolding var_assign_op_var_var binop_var_var set_binop_indvar
  var_assign_op_var_var-Sound s str st src1 src2 sound =
      elim (Option-cases (var_find s (skip_dollar src1))) [
        | inl nothing ↦ rw (nothing, var_assign_op_var_var) sound
        | inr (p, found) ↦ elim (Option-cases (var_find s (skip_dollar src2))) [
          | inl nothing ↦ rw (found, nothing, var_assign_op_var_var) sound
          | inr (q, found') ↦
              rw (found, found', var_assign_op_var_var)
                (assign_found-Sound (λ v. binop_var_var v p st q) (var_find_alloc str s)
                  (λ v. (refl, tt)) (var_find_alloc-Sound s str sound))
        ]
      ]

  pub store_string-Sound :
      (s : Shared D) (a : ℕ) (text : Str) → Sound s → Sound (store_string text a s).1
  unfolding store_string set_str
  store_string-Sound s a text sound =
      elim (Option-cases ((ipc_stralloc s.string_memory s.strings text).0)) [
        | inl full ↦ rw (full, store_string) (strings-Sound s r sound)
        | inr (p, room) ↦
            rw (room, store_string)
              (set_var-Sound (record s { strings = r }) a (set_str (s.vars a) text) refl
                (text, refl) (strings-Sound s r sound))
      ]
    where
      r : Region
      r = (ipc_stralloc s.string_memory s.strings text).1

  pub var_assign_string-Sound :
      (s : Shared D) (str text : Str) → Sound s → Sound (var_assign_string str text s).1
  unfolding var_assign_string
  var_assign_string-Sound s str text sound = elim (Option-cases (r.0)) [
    | inl nothing ↦ rw (nothing, var_assign_string) sound'
    | inr (a, found) ↦
        rw (found, var_assign_string)
          (if_elim (λ (q : Bool × Shared D). Sound q.1) (is_random ((r.1.vars a).scope))
            (λ _. sound') (λ _. store_string-Sound r.1 a text sound'))
  ]
    where
      r : Option ℕ × Shared D
      r = find_or_alloc (skip_dollar str) s

      sound' : Sound r.1
      sound' = find_or_alloc-Sound s (skip_dollar str) sound
