-- ===== src/Vars/Binop/Loop.antt =====
-- filebench/vars.c: a variable that refers to itself, whose reading does not come to an end.
use filebench_pre_fsl.Base.{
  update_same, ℕ, zero, suc, ◌≡◌, refl, ap, ◌∙◌, inl, inr, true, false, some, Bool-cases, arith,
}
use filebench_pre_fsl.Vars.{
  Str, skip_dollar, OpType, indvar_set, integer, Var, set_binop_indvar, has_binop, Shared, set_var,
  var_find, find_or_alloc, var_find_alloc,
}
use filebench_pre_fsl.Vars.Eval.{
  Doubles, RndGet, spins, second_int, var_binary_integer_op, int_of, var_get_int,
}
use filebench_pre_fsl.Vars.Located.{Located-set, find_any_name}
use filebench_pre_fsl.Vars.RoundTrip.{find_any_found}
use filebench_pre_fsl.Vars.Assign.{is_random, assign_found, binop_int_var, var_assign_op_var_int}
use filebench_pre_fsl.Vars.Dynamic.{Outside}
use filebench_pre_fsl.Vars.Avd.{var_to_integer}

module _ {D S : Type 0} (F : Doubles D) (rnd_get : RndGet D S) where
  module _ (vars : ℕ → Var D) (a n : ℕ) where
    -- A binary operation with an integer, on the variable itself.
    record SelfOp : Type 0 where
      is_op : (vars a).set_to ≡ indvar_set
      is_int : (vars a).ind.binop_int ≡ true
      no_dbl : (vars a).ind.binop_dbl ≡ false
      operand : (vars a).val ≡ integer n
      itself : (vars a).varptr1 ≡ some a

    SelfOp-spins : SelfOp → (fuel : ℕ) (u : S) → var_get_int F rnd_get fuel vars a u ≡ spins
    unfolding var_get_int int_of var_binary_integer_op second_int has_binop
    SelfOp-spins h zero u = refl
    SelfOp-spins h (suc fuel) u =
        rw (h.is_op, h.is_int, h.no_dbl, h.operand, h.itself, SelfOp-spins h fuel u) refl

  module _ (s : Shared D) (st : OpType) (n a : ℕ) where
    -- `$a = $a op n` as it is stored.
    after_op : Shared D
    after_op = set_var s a (binop_int_var (s.vars a) a st n)

    after_op-SelfOp :
        (s.vars a).ind.binop_dbl ≡ false
        → st.binop_int ≡ true
        → st.binop_dbl ≡ false
        → SelfOp after_op.vars a n
    unfolding after_op set_var binop_int_var set_binop_indvar
    after_op-SelfOp plain int alone =
        let put = update_same s.vars a (binop_int_var (s.vars a) a st n) in
        record {
          is_op = ap (λ (w : Var D). w.set_to) put;
          is_int = ap (λ (w : Var D). w.ind.binop_int) put ∙ rw int (ground arith);
          no_dbl = ap (λ (w : Var D). w.ind.binop_dbl) put ∙ rw (plain, alone) refl;
          operand = ap (λ (w : Var D). w.val) put;
          itself = ap (λ (w : Var D). w.varptr1) put;
        }

  after_op-found :
      (s : Shared D) (st : OpType) (n a : ℕ) (str : Str)
      → var_find s str ≡ some a
      → var_find (after_op s st n a) str ≡ some a
  unfolding after_op binop_int_var set_binop_indvar
  after_op-found s st n a str h =
      (Located-set s s str a (binop_int_var (s.vars a) a st n)
        (record {
          at = h;
          name = find_any_name s str a h;
          others = λ other ne. (refl, λ b e. refl);
        })
        refl).at

  after_op-stored :
      (s s' : Shared D) (st : OpType) (n a : ℕ) (str : Str)
      → var_find s (skip_dollar str) ≡ some a
      → var_assign_op_var_int (some str) st str n s ≡ (true, s')
      → after_op s st n a ≡ s'
  unfolding after_op var_assign_op_var_int var_find_alloc find_or_alloc assign_found
  after_op-stored s s' st n a str found e = elim (Bool-cases (is_random ((s.vars a).scope))) [
    | inl rand ↦
        let stuck : (false, s) ≡ (true, s') =
          rw (found, found, rand, var_assign_op_var_int, find_or_alloc) at e in
        absurd (cc)
    | inr plain ↦
        let done : (true, set_var s a (binop_int_var (s.vars a) a st n)) ≡ (true, s') =
          rw (found, found, plain, var_assign_op_var_int, find_or_alloc) at e in
        cc
  ]

  spins_by_name :
      (O : Outside) (s : Shared D) (str : Str) (a fuel : ℕ) (u : S)
      → var_find s (skip_dollar str) ≡ some a
      → var_get_int F rnd_get fuel s.vars a u ≡ spins
      → var_to_integer F rnd_get O fuel str s u ≡ spins
  unfolding var_to_integer
  spins_by_name O s str a fuel u found h =
      rw (find_any_found O s (skip_dollar str) a found, h, var_to_integer) refl

  -- After a successful `$x = $x op n` on a variable that had no operation with a double, reading $x
  -- never ends, whatever fuel is given: var_get_int calls itself for the same variable.
  var_assign_op_var_int_self :
      (O : Outside) (s s' : Shared D) (str : Str) (st : OpType) (n a fuel : ℕ) (u : S)
      → var_find s (skip_dollar str) ≡ some a
      → (s.vars a).ind.binop_dbl ≡ false
      → st.binop_int ≡ true
      → st.binop_dbl ≡ false
      → var_assign_op_var_int (some str) st str n s ≡ (true, s')
      → var_to_integer F rnd_get O fuel str s' u ≡ spins
  var_assign_op_var_int_self O s s' str st n a fuel u found plain int alone e =
      rw (← after_op-stored s s' st n a str found e) (
        spins_by_name O (after_op s st n a) str a fuel u
          (after_op-found s st n a (skip_dollar str) found)
          (SelfOp-spins (after_op s st n a).vars a n (after_op-SelfOp s st n a plain int alone) fuel
            u))
