-- ===== src/Vars/RoundTrip.antt =====
-- filebench/vars.c: reading a variable by name after it has been assigned by name.
use filebench_pre_fsl.Base.{ℕ, suc, ◌≡◌, refl, ap, Bool, true, some}
use filebench_pre_fsl.Vars.{
  Str, skip_dollar, bool_set, boolean, Var, set_bool, set_int, Shared, var_find, var_find_alloc,
}
use filebench_pre_fsl.Vars.Inv.{Sound}
use filebench_pre_fsl.Vars.Located.{OthersKept, assign_found-Assigned}
use filebench_pre_fsl.Vars.Eval.{Doubles, RndGet, got, int_of, var_get_int, var_get_bool}
use filebench_pre_fsl.Vars.Assign.{var_assign_boolean, var_assign_integer}
use filebench_pre_fsl.Vars.Dynamic.{Outside}
use filebench_pre_fsl.Vars.Avd.{find_any, var_to_boolean, var_to_integer}

pub find_any_found :
    {D : Type 0} (O : Outside) (s : Shared D) (str : Str) (a : ℕ)
    → var_find s str ≡ some a
    → find_any O str s ≡ some (some a, s)
unfolding find_any
find_any_found O s str a h = rw (h, find_any) refl

module _ {D S : Type 0} (F : Doubles D) (rnd_get : RndGet D S) (O : Outside) where
  get_set_bool :
      (vars : ℕ → Var D) (a : ℕ) (b : Bool) (u : S)
      → (vars a).set_to ≡ bool_set
      → (vars a).val ≡ boolean b
      → var_get_bool F rnd_get vars a u ≡ got b u
  unfolding var_get_bool
  get_set_bool vars a b u s v = rw (s, v, var_get_bool) refl

  -- In a well-formed state, where var_assign_integer succeeds, var_to_integer of the name gives the
  -- integer and changes nothing; every other name is found where it was, or not found as before, and
  -- its variable is unchanged.
  pub var_to_integer-var_assign_integer :
      (s s' : Shared D) (str : Str) (n fuel : ℕ) (u : S)
      → Sound s
      → var_assign_integer (some str) n s ≡ (true, s')
      → (var_to_integer F rnd_get O (suc fuel) str s' u ≡ got (n, s') u)
        × OthersKept s s' (skip_dollar str)
  unfolding var_to_integer var_get_int int_of var_assign_integer var_find_alloc set_int
  var_to_integer-var_assign_integer s s' str n fuel u sound e =
      let (a, w, l, v) =
        assign_found-Assigned (λ v. set_int v n) s s' (skip_dollar str) (λ v. refl) sound e in
      (rw (find_any_found O s' (skip_dollar str) a l.at, var_to_integer, v) refl, l.others)

  -- The same of var_assign_boolean and var_to_boolean.
  pub var_to_boolean-var_assign_boolean :
      (s s' : Shared D) (str : Str) (b : Bool) (u : S)
      → Sound s
      → var_assign_boolean (some str) b s ≡ (true, s')
      → (var_to_boolean F rnd_get O str s' u ≡ got (b, s') u) × OthersKept s s' (skip_dollar str)
  unfolding var_to_boolean var_assign_boolean var_find_alloc set_bool
  var_to_boolean-var_assign_boolean s s' str b u sound e =
      let (a, w, l, v) =
        assign_found-Assigned (λ v. set_bool v b) s s' (skip_dollar str) (λ v. refl) sound e in
      (
        rw
            (
              find_any_found O s' (skip_dollar str) a l.at,
              var_to_boolean,
              get_set_bool s'.vars a b u (ap (λ (x : Var D). x.set_to) v)
                  (ap (λ (x : Var D). x.val) v),
            )
            refl,
        l.others,
      )
