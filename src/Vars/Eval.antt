-- ===== src/Vars/Eval.antt =====
-- filebench/vars.c: the values of variables (var_get_bool, var_get_int, var_get_dbl, the binary
-- operations, var_to_boolean, var_to_integer, var_to_double). Doubles, and the rnd_get of a random
-- distribution with the state it draws from, are arguments.
use filebench_pre_fsl.Base.{
  ℕ, zero, suc, ◌+◌, ◌-◌, ◌*◌, ◌/◌, ◌%◌, ◌^◌, Bool, true, false, not, Option, none, some, ◌==◌,
  if◌then◌else◌,
}
use filebench_pre_fsl.Vars.{
  bool_set, int_set, dbl_set, rand_set, Op, assign, var_sum_vc, var_dif_vc, c_dif_var, var_mul_vc,
  var_div_vc, c_div_var, Val, untouched, boolean, integer, dbl_flt, randptr, varptr2, Var,
  has_binop,
}

-- The C type double and its conversions from and to uint64_t.
pub record Doubles (D : Type 0) : Type 0 where
  pub of_int : ℕ → D
  pub to_int : D → ℕ
  pub add : D → D → D
  pub sub : D → D → D
  pub mul : D → D → D
  pub div : D → D → D

-- rnd_get of the distribution in a slot: the number, and the state of the random source after it.
abbrev pub RndGet : (D S : Type 0) → Type 0
RndGet D S = ℕ → S → D × S

-- What reading a variable comes to, with the source's state.
pub data Got (V S : Type 0) : Type 0 where
  got : V → S → Got V S
  -- division by zero, or a member of the union read that another member was stored over
  fault : Got V S
  -- out of fuel
  spins : Got V S

abbrev pub bind_got : {V W S : Type 0} → Got V S → (V → S → Got W S) → Got W S
bind_got (got v s) f = f v s
bind_got fault f = fault
bind_got spins f = spins

abbrev pub of_option : {V S : Type 0} → Option V → S → Got V S
of_option none s = fault
of_option (some v) s = got v s

-- The members of the union; the untouched one has all bytes zero.
abbrev pub read_bool : {D : Type 0} → Val D → Option Bool
read_bool (boolean b) = some b
read_bool untouched = some false
read_bool _ = none

abbrev pub read_int : {D : Type 0} → Val D → Option ℕ
read_int (integer n) = some n
read_int untouched = some 0
read_int _ = none

abbrev pub read_dbl : {D : Type 0} → Doubles D → Val D → Option D
read_dbl F (dbl_flt d) = some d
read_dbl F untouched = some (F.of_int 0)
read_dbl F _ = none

abbrev pub read_randptr : {D : Type 0} → Val D → Option (Option ℕ)
read_randptr (randptr p) = some p
read_randptr untouched = some none
read_randptr _ = none

abbrev pub read_varptr2 : {D : Type 0} → Val D → Option (Option ℕ)
read_varptr2 (varptr2 p) = some p
read_varptr2 untouched = some none
read_varptr2 _ = none

abbrev pub word : ℕ → ℕ
word n = n % 2 ^ 64

-- The second switch of var_binary_integer_op; `none` is a division by zero.
unfoldable pub int_op : Op → ℕ → ℕ → Option ℕ
int_op var_sum_vc src1 src2 = some (word (src1 + src2))
int_op var_dif_vc src1 src2 = some (word (src1 + 2 ^ 64 - src2))
int_op c_dif_var src1 src2 = some (word (src2 + 2 ^ 64 - src1))
int_op var_mul_vc src1 src2 = some (word (src1 * src2))
int_op var_div_vc src1 src2 = if src2 == 0 then none else some (src1 / src2)
int_op c_div_var src1 src2 = if src1 == 0 then none else some (src2 / src1)
int_op assign src1 src2 = some 0

-- Doubles divide by zero without a trap.
unfoldable pub dbl_op : {D : Type 0} → Doubles D → Op → D → D → D
dbl_op F var_sum_vc src1 src2 = F.add src1 src2
dbl_op F var_dif_vc src1 src2 = F.sub src1 src2
dbl_op F c_dif_var src1 src2 = F.sub src2 src1
dbl_op F var_mul_vc src1 src2 = F.mul src1 src2
dbl_op F c_div_var src1 src2 = F.div src2 src1
dbl_op F var_div_vc src1 src2 = F.div src1 src2
dbl_op F assign src1 src2 = F.of_int 0

module _ {D S : Type 0} (F : Doubles D) (rnd_get : RndGet D S) where
  -- A variable's value through a pointer that may be NULL: `if (p != NULL) … else src = 0`.
  abbrev pub through : {V : Type 0} → (ℕ → S → Got V S) → V → Option ℕ → S → Got V S
  through get nought none s = got nought s
  through get nought (some a) s = get a s

  -- The first switch of var_binary_integer_op. `get` is var_get_int, which calls back.
  unfoldable pub second_int : (ℕ → S → Got ℕ S) → Var D → S → Got ℕ S
  second_int get v s = elim (v.ind.binop_int) [
    | false ↦ bind_got (of_option (read_dbl F v.val) s) (λ d t. got (F.to_int d) t)
    | true ↦
        if v.ind.binop_dbl
        then bind_got (of_option (read_varptr2 v.val) s) (λ p t. through get 0 p t)
        else of_option (read_int v.val) s
  ]

  unfoldable pub var_binary_integer_op : (ℕ → S → Got ℕ S) → Var D → S → Got ℕ S
  unfolding second_int
  var_binary_integer_op get v s = bind_got (second_int get v s) (λ src2 t.
      bind_got (through get 0 v.varptr1 t) (λ src1 u. of_option (int_op v.ind.op src1 src2) u))

  unfoldable pub second_dbl : (ℕ → S → Got D S) → Var D → S → Got D S
  second_dbl get v s = elim (v.ind.binop_int) [
    | false ↦ of_option (read_dbl F v.val) s
    | true ↦
        if v.ind.binop_dbl
        then bind_got (of_option (read_varptr2 v.val) s) (λ p t. through get (F.of_int 0) p t)
        else bind_got (of_option (read_int v.val) s) (λ n t. got (F.of_int n) t)
  ]

  unfoldable pub var_binary_dbl_flt_op : (ℕ → S → Got D S) → Var D → S → Got D S
  unfolding second_dbl
  var_binary_dbl_flt_op get v s = bind_got (second_dbl get v s) (λ src2 t.
      bind_got (through get (F.of_int 0) v.varptr1 t)
        (λ src1 u. got (dbl_op F v.ind.op src1 src2) u))

  -- A draw through a randdist pointer; a NULL one falls through to the error.
  abbrev pub draw : {V : Type 0} → (D → V) → V → Option ℕ → S → Got V S
  draw convert nought none s = got nought s
  draw convert nought (some r) s = let (d, t) = rnd_get r s in got (convert d) t

  -- The tests of var_get_int for one variable.
  unfoldable pub int_of : (ℕ → S → Got ℕ S) → Var D → S → Got ℕ S
  unfolding var_binary_integer_op has_binop
  int_of get v s = elim (v.set_to) [
    | int_set ↦ of_option (read_int v.val) s
    | rand_set ↦ bind_got (of_option (read_randptr v.val) s) (λ p t. draw F.to_int 0 p t)
    | _ ↦ if has_binop v then var_binary_integer_op get v s else got 0 s
  ]

  unfoldable pub dbl_of : (ℕ → S → Got D S) → Var D → S → Got D S
  unfolding var_binary_dbl_flt_op has_binop
  dbl_of get v s = elim (v.set_to) [
    | int_set ↦ bind_got (of_option (read_int v.val) s) (λ n t. got (F.of_int n) t)
    | dbl_set ↦ of_option (read_dbl F v.val) s
    | rand_set ↦ bind_got (of_option (read_randptr v.val) s) (λ p t. draw (λ d. d) (F.of_int 0) p t)
    | _ ↦ if has_binop v then var_binary_dbl_flt_op get v s else got (F.of_int 0) s
  ]

  -- The recursion through binary operations, on fuel.
  unfoldable pub var_get_int : ℕ → (ℕ → Var D) → ℕ → S → Got ℕ S
  unfolding int_of
  var_get_int zero vars a s = spins
  var_get_int (suc fuel) vars a s = int_of (var_get_int fuel vars) (vars a) s

  unfoldable pub var_get_dbl : ℕ → (ℕ → Var D) → ℕ → S → Got D S
  unfolding dbl_of
  var_get_dbl zero vars a s = spins
  var_get_dbl (suc fuel) vars a s = dbl_of (var_get_dbl fuel vars) (vars a) s

  unfoldable pub var_get_bool : (ℕ → Var D) → ℕ → S → Got Bool S
  var_get_bool vars a s = elim ((vars a).set_to) [
    | bool_set ↦ of_option (read_bool ((vars a).val)) s
    | int_set ↦ bind_got (of_option (read_int ((vars a).val)) s) (λ n t. got (not (n == 0)) t)
    | _ ↦ got false s
  ]
