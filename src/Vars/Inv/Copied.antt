-- ===== src/Vars/Inv/Copied.antt =====
-- filebench/vars.c: the routines that copy a variable, the random variables and the local ones, on
-- well-formed states. Those with an `Option` around their result never follow a pointer that is not
-- there.
use filebench_pre_fsl.Base.{
  ℕ, ◌≡◌, refl, ap, inl, inr, Bool, true, false, Option, none, some, if_elim, Option-cases,
}
use filebench_pre_fsl.Ipc.{Shm, randdist}
use filebench_pre_fsl.Ipc.Alloc.{malloc_cases}
use filebench_pre_fsl.Vars.{
  Str, skip_dollar, random, local, SetTo, unset, bool_set, int_set, str_set, dbl_set, rand_set,
  indvar_set, Val, Var, set_bool, set_int, set_dbl, set_rand, set_indvar, has_indvar, Shared,
  set_var, var_alloc_cmn, var_lvar_alloc_local, without_dollar, var_find, find_or_alloc,
}
use filebench_pre_fsl.Vars.Eval.{Doubles}
use filebench_pre_fsl.Vars.Find.{or_else-none}
use filebench_pre_fsl.Vars.Inv.{Fits, Sound, set_var-Sound}
use filebench_pre_fsl.Vars.Inv.Alloc.{with_slot, with_slot-Sound}
use filebench_pre_fsl.Vars.Inv.New.{var_alloc_cmn-Sound}
use filebench_pre_fsl.Vars.Inv.Assigned.{Setter, find_or_alloc-Sound, store_string-Sound}
use filebench_pre_fsl.Vars.Assign.{
  is_random, store_string, put_var, var_copy, var_assign_var, var_define_randvar,
}
use filebench_pre_fsl.Vars.Local.{
  set_new, var_lvar_assign_boolean, var_lvar_assign_integer, var_lvar_assign_double, store_new,
  var_lvar_assign_string, put_new, copy_new, is_local, var_lvar_assign_var,
}

module _ {D : Type 0} where
  -- A result with a well-formed state.
  abbrev pub Done : {A : Type 0} → Option (A × Shared D) → Type 0
  Done {A} o = (r : A × Shared D) × (o ≡ some r) × Sound r.1

  abbrev pub Readable : Var D → Type 0
  Readable v = Fits v.set_to v.val

  put_var-Done :
      (s : Shared D) (a : ℕ) (v : Var D)
      → v.name ≡ (s.vars a).name
      → Fits v.set_to v.val
      → Sound s
      → Done (put_var s a v)
  unfolding put_var
  put_var-Done s a v h fits sound = ((true, set_var s a v), refl, set_var-Sound s a v h fits sound)

  -- What var_copy does by the source's type.
  copy_by :
      (s : Shared D) (dst src : ℕ) (set_to : SetTo) (val : Val D)
      → (s.vars src).set_to ≡ set_to
      → (s.vars src).val ≡ val
      → Fits set_to val
      → Sound s
      → Done (var_copy dst src s)
  unfolding var_copy set_bool set_int set_dbl set_indvar
  copy_by s dst src bool_set val e f (b, fits) sound =
      rw (e, f, fits, var_copy) (put_var-Done s dst (set_bool (s.vars dst) b) refl (b, refl) sound)
  copy_by s dst src int_set val e f (n, fits) sound =
      rw (e, f, fits, var_copy) (put_var-Done s dst (set_int (s.vars dst) n) refl (n, refl) sound)
  copy_by s dst src dbl_set val e f (d, fits) sound =
      rw (e, f, fits, var_copy) (put_var-Done s dst (set_dbl (s.vars dst) d) refl (d, refl) sound)
  copy_by s dst src str_set val e f (text, fits) sound =
      rw (e, f, fits, var_copy) (store_string text dst s, refl, store_string-Sound s dst text sound)
  copy_by s dst src indvar_set val e f fits sound =
      rw (e, var_copy)
        (if_elim Done (has_indvar (s.vars src))
          (λ _. put_var-Done s dst (set_indvar (s.vars dst) ((s.vars src).varptr1)) refl tt sound)
          (λ _. ((true, s), refl, sound)))
  copy_by s dst src rand_set val e f fits sound = rw (e, var_copy) ((true, s), refl, sound)
  copy_by s dst src unset val e f fits sound = rw (e, var_copy) ((true, s), refl, sound)

  pub var_copy-Done : (s : Shared D) (dst src : ℕ) → Sound s → Done (var_copy dst src s)
  var_copy-Done s dst src sound =
      copy_by s dst src ((s.vars src).set_to) ((s.vars src).val) refl refl (sound.typed src) sound

  pub var_assign_var-Done :
      (s : Shared D) (str src : Str) → Sound s → Done (var_assign_var str src s)
  unfolding var_assign_var
  var_assign_var-Done s str src sound = elim (Option-cases (var_find s (skip_dollar src))) [
    | inl nothing ↦ rw (nothing, var_assign_var) ((false, s), refl, sound)
    | inr (b, found) ↦ elim (Option-cases (r.0)) [
      | inl full ↦ rw (found, full, var_assign_var) ((false, r.1), refl, sound')
      | inr (a, found') ↦
          rw (found, found', var_assign_var)
            (if_elim Done (is_random ((r.1.vars a).scope)) (λ _. ((false, r.1), refl, sound'))
              (λ _. var_copy-Done r.1 a b sound'))
    ]
  ]
    where
      r : Option ℕ × Shared D
      r = find_or_alloc (skip_dollar str) s

      sound' : Sound r.1
      sound' = find_or_alloc-Sound s (skip_dollar str) sound

  pub var_define_randvar-Sound :
      (s : Shared D) (str : Str) → Sound s → Sound (var_define_randvar str s).1
  unfolding var_define_randvar var_find set_rand
  var_define_randvar-Sound s str sound = elim (Option-cases (var_find s (skip_dollar str))) [
    | inr (a, found) ↦ rw (found, var_define_randvar) sound
    | inl nothing ↦
        let r = var_alloc_cmn (skip_dollar str) random s in
        let sound' : Sound r.1 =
          var_alloc_cmn-Sound s (skip_dollar str) random sound (or_else-none _ _ nothing).1 in
        elim (Option-cases (r.0)) [
          | inl full ↦ rw (nothing, full, var_define_randvar) sound'
          | inr (a, e) ↦ elim (malloc_cases r.1.ipc randdist (sound'.in_map randdist)) [
            | inl refused ↦ rw (nothing, e, refused, var_define_randvar) sound'
            | inr (j, marked, lt, free) ↦
                rw (nothing, e, marked, ap (λ (m : Option ℕ × Shm). m.1) marked, var_define_randvar)
                  (set_var-Sound (with_slot r.1 randdist j) a (set_rand (r.1.vars a) (some j)) refl
                    (some j, refl) (with_slot-Sound r.1 randdist j lt sound'))
          ]
        ]
  ]

  set_new-Sound :
      (f : Var D → Var D) (r : Option ℕ × Shared D) → Setter f → Sound r.1 → Sound (set_new f r).1
  unfolding set_new
  set_new-Sound f (none, s) h sound = sound
  set_new-Sound f (some a, s) h sound =
      set_var-Sound s a (f (s.vars a)) (h (s.vars a)).0 (h (s.vars a)).1 sound

  pub var_lvar_alloc_local-Sound :
      (s : Shared D) (str : Str) → Sound s → Sound (var_lvar_alloc_local str s).1
  unfolding var_lvar_alloc_local
  var_lvar_alloc_local-Sound s str sound = var_alloc_cmn-Sound s (without_dollar str) local sound tt

  pub var_lvar_assign_boolean-Sound :
      (s : Shared D) (str : Str) (b : Bool) → Sound s → Sound (var_lvar_assign_boolean str b s).1
  unfolding var_lvar_assign_boolean set_bool
  var_lvar_assign_boolean-Sound s str b sound =
      set_new-Sound (λ v. set_bool v b) (var_lvar_alloc_local str s) (λ v. (refl, (b, refl)))
        (var_lvar_alloc_local-Sound s str sound)

  pub var_lvar_assign_integer-Sound :
      (s : Shared D) (str : Str) (n : ℕ) → Sound s → Sound (var_lvar_assign_integer str n s).1
  unfolding var_lvar_assign_integer set_int
  var_lvar_assign_integer-Sound s str n sound =
      set_new-Sound (λ v. set_int v n) (var_lvar_alloc_local str s) (λ v. (refl, (n, refl)))
        (var_lvar_alloc_local-Sound s str sound)

  pub var_lvar_assign_double-Sound :
      (s : Shared D) (str : Str) (d : D) → Sound s → Sound (var_lvar_assign_double str d s).1
  unfolding var_lvar_assign_double set_dbl
  var_lvar_assign_double-Sound s str d sound =
      set_new-Sound (λ v. set_dbl v d) (var_lvar_alloc_local str s) (λ v. (refl, (d, refl)))
        (var_lvar_alloc_local-Sound s str sound)

  store_new-Sound : (s : Shared D) (a : ℕ) (text : Str) → Sound s → Sound (store_new text a s).1
  unfolding store_new
  store_new-Sound s a text sound = store_string-Sound s a text sound

  pub var_lvar_assign_string-Sound :
      (s : Shared D) (str text : Str) → Sound s → Sound (var_lvar_assign_string str text s).1
  unfolding var_lvar_assign_string
  var_lvar_assign_string-Sound s str text sound =
      elim (Option-cases ((var_lvar_alloc_local str s).0)) [
        | inl full ↦ rw (full, var_lvar_assign_string) (var_lvar_alloc_local-Sound s str sound)
        | inr (a, e) ↦
            rw (e, var_lvar_assign_string)
              (store_new-Sound (var_lvar_alloc_local str s).1 a text
                (var_lvar_alloc_local-Sound s str sound))
      ]

  put_new-Done :
      (s : Shared D) (a : ℕ) (v : Var D)
      → v.name ≡ (s.vars a).name
      → Fits v.set_to v.val
      → Sound s
      → Done (put_new s a v)
  unfolding put_new
  put_new-Done s a v h fits sound =
      ((some a, set_var s a v), refl, set_var-Sound s a v h fits sound)

  copy_new_by :
      (F : Doubles D) (s : Shared D) (dst src : ℕ) (set_to : SetTo) (val : Val D)
      → (s.vars src).set_to ≡ set_to
      → (s.vars src).val ≡ val
      → Fits set_to val
      → Sound s
      → Done (copy_new F dst src s)
  unfolding copy_new set_bool set_int set_rand
  copy_new_by F s dst src bool_set val e f (b, fits) sound =
      rw (e, f, fits, copy_new) (put_new-Done s dst (set_bool (s.vars dst) b) refl (b, refl) sound)
  copy_new_by F s dst src int_set val e f (n, fits) sound =
      rw (e, f, fits, copy_new) (put_new-Done s dst (set_int (s.vars dst) n) refl (n, refl) sound)
  copy_new_by F s dst src dbl_set val e f (d, fits) sound =
      rw (e, f, fits, copy_new)
        (put_new-Done s dst (set_int (s.vars dst) (F.to_int d)) refl (F.to_int d, refl) sound)
  copy_new_by F s dst src str_set val e f (text, fits) sound =
      rw (e, f, fits, copy_new) (store_new text dst s, refl, store_new-Sound s dst text sound)
  copy_new_by F s dst src rand_set val e f (p, fits) sound =
      rw (e, f, fits, copy_new) (put_new-Done s dst (set_rand (s.vars dst) p) refl (p, refl) sound)
  copy_new_by F s dst src indvar_set val e f fits sound =
      rw (e, copy_new) ((some dst, s), refl, sound)
  copy_new_by F s dst src unset val e f fits sound = rw (e, copy_new) ((some dst, s), refl, sound)

  pub var_lvar_assign_var-Done :
      (F : Doubles D) (s : Shared D) (str src : Str)
      → Sound s
      → Done (var_lvar_assign_var F str src s)
  unfolding var_lvar_assign_var set_indvar
  var_lvar_assign_var-Done F s str src sound = elim (Option-cases (var_find s (skip_dollar src))) [
    | inl nothing ↦ rw (nothing, var_lvar_assign_var) ((none, s), refl, sound)
    | inr (b, found) ↦ elim (Option-cases (r.0)) [
      | inl full ↦ rw (found, full, var_lvar_assign_var) ((none, r.1), refl, sound')
      | inr (a, e) ↦
          rw (found, e, var_lvar_assign_var)
            (if_elim Done (is_local ((r.1.vars b).scope))
              (λ _. (
                (some a, set_var r.1 a (set_indvar (r.1.vars a) (some b))),
                refl,
                set_var-Sound r.1 a (set_indvar (r.1.vars a) (some b)) refl tt sound',
              ))
              (λ _.
                copy_new_by F r.1 a b ((r.1.vars b).set_to) ((r.1.vars b).val) refl refl
                  (sound'.typed b) sound'))
    ]
  ]
    where
      r : Option ℕ × Shared D
      r = var_lvar_alloc_local str s

      sound' : Sound r.1
      sound' = var_lvar_alloc_local-Sound s str sound
