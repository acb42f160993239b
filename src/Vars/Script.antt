-- ===== src/Vars/Script.antt =====
-- filebench/vars.c: the calls by which a script sets its variables, one after the other, in any
-- order.
use filebench_pre_fsl.Base.{ℕ, ◌≡◌, refl, ap, Bool, Option, none, some, List, [], ◌∷◌}
use filebench_pre_fsl.Vars.{Str, OpType, Shared}
use filebench_pre_fsl.Vars.Eval.{Doubles}
use filebench_pre_fsl.Vars.Assign.{
  var_assign_boolean, var_assign_integer, var_assign_op_var_int, var_assign_op_var_var,
  var_assign_string, var_assign_var, var_define_randvar,
}
use filebench_pre_fsl.Vars.Local.{
  var_lvar_assign_boolean, var_lvar_assign_integer, var_lvar_assign_double, var_lvar_assign_string,
  var_lvar_assign_var,
}
use filebench_pre_fsl.Vars.Inv.{Sound}
use filebench_pre_fsl.Vars.Inv.Assigned.{
  var_assign_boolean-Sound, var_assign_integer-Sound, var_assign_op_var_int-Sound,
  var_assign_op_var_var-Sound, var_assign_string-Sound,
}
use filebench_pre_fsl.Vars.Inv.Copied.{
  Done, var_assign_var-Done, var_define_randvar-Sound, var_lvar_assign_boolean-Sound,
  var_lvar_assign_integer-Sound, var_lvar_assign_double-Sound, var_lvar_assign_string-Sound,
  var_lvar_assign_var-Done,
}

-- One call with its arguments.
pub data Command (D : Type 0) : Type 0 where
  assign_boolean : Option Str → Bool → Command D
  assign_integer : Option Str → ℕ → Command D
  assign_string : Str → Str → Command D
  assign_var : Str → Str → Command D
  op_var_int : Option Str → OpType → Str → ℕ → Command D
  op_var_var : Option Str → OpType → Str → Str → Command D
  define_randvar : Str → Command D
  lvar_boolean : Str → Bool → Command D
  lvar_integer : Str → ℕ → Command D
  lvar_double : Str → D → Command D
  lvar_string : Str → Str → Command D
  lvar_var : Str → Str → Command D

abbrev state_of : {A B : Type 0} → Option (A × B) → Option B
state_of none = none
state_of (some (a, b)) = some b

module _ {D : Type 0} (F : Doubles D) where
  -- The state after a call, whether or not it succeeds; `none` for a fault.
  unfoldable pub obey : Command D → Shared D → Option (Shared D)
  obey (assign_boolean str b) s = some (var_assign_boolean str b s).1
  obey (assign_integer str n) s = some (var_assign_integer str n s).1
  obey (assign_string str text) s = some (var_assign_string str text s).1
  obey (assign_var str src) s = state_of (var_assign_var str src s)
  obey (op_var_int str st src n) s = some (var_assign_op_var_int str st src n s).1
  obey (op_var_var str st src1 src2) s = some (var_assign_op_var_var str st src1 src2 s).1
  obey (define_randvar str) s = some (var_define_randvar str s).1
  obey (lvar_boolean str b) s = some (var_lvar_assign_boolean str b s).1
  obey (lvar_integer str n) s = some (var_lvar_assign_integer str n s).1
  obey (lvar_double str d) s = some (var_lvar_assign_double str d s).1
  obey (lvar_string str text) s = some (var_lvar_assign_string str text s).1
  obey (lvar_var str src) s = state_of (var_lvar_assign_var F str src s)

  unfoldable pub run_script : List (Command D) → Shared D → Option (Shared D)
  unfolding obey
  run_script [] s = some s
  run_script (c ∷ cs) s = elim (obey c s) [ none ↦ none | some t ↦ run_script cs t ]

  abbrev pub Ends : Option (Shared D) → Type 0
  Ends o = (t : Shared D) × (o ≡ some t) × Sound t

  state_of-Ends : {A : Type 0} (o : Option (A × Shared D)) → Done o → Ends (state_of o)
  state_of-Ends o (r, e, sound) = (r.1, ap state_of e, sound)

  obey-Ends : (c : Command D) (s : Shared D) → Sound s → Ends (obey c s)
  unfolding obey
  obey-Ends (assign_boolean str b) s h = (_, refl, var_assign_boolean-Sound s str b h)
  obey-Ends (assign_integer str n) s h = (_, refl, var_assign_integer-Sound s str n h)
  obey-Ends (assign_string str text) s h = (_, refl, var_assign_string-Sound s str text h)
  obey-Ends (assign_var str src) s h =
      state_of-Ends (var_assign_var str src s) (var_assign_var-Done s str src h)
  obey-Ends (op_var_int str st src n) s h = (_, refl, var_assign_op_var_int-Sound s str st src n h)
  obey-Ends (op_var_var str st src1 src2) s h =
      (_, refl, var_assign_op_var_var-Sound s str st src1 src2 h)
  obey-Ends (define_randvar str) s h = (_, refl, var_define_randvar-Sound s str h)
  obey-Ends (lvar_boolean str b) s h = (_, refl, var_lvar_assign_boolean-Sound s str b h)
  obey-Ends (lvar_integer str n) s h = (_, refl, var_lvar_assign_integer-Sound s str n h)
  obey-Ends (lvar_double str d) s h = (_, refl, var_lvar_assign_double-Sound s str d h)
  obey-Ends (lvar_string str text) s h = (_, refl, var_lvar_assign_string-Sound s str text h)
  obey-Ends (lvar_var str src) s h =
      state_of-Ends (var_lvar_assign_var F str src s) (var_lvar_assign_var-Done F s str src h)

  -- From a well-formed state, any sequence of assigning calls ends without a fault in a well-formed
  -- state: every listed variable has its slot marked as used, no two variables of shm_var_list have
  -- one name, and a type that says which member of the union is set says so truly.
  pub run_script-Sound : (cs : List (Command D)) (s : Shared D) → Sound s → Ends (run_script cs s)
  unfolding run_script
  run_script-Sound [] s h = (s, refl, h)
  run_script-Sound (c ∷ cs) s h =
      let (t, e, sound) = obey-Ends c s h in
      let (t', e', sound') = run_script-Sound cs t sound in (t', rw (e, run_script) e', sound')
