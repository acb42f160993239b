-- ===== src/Vars/Binop.antt =====
-- filebench/vars.c: the values of variables that are binary operations over other variables, against
-- expression trees.
pub mod Ends
pub mod Loop
use filebench_pre_fsl.Base.{
  ℕ, zero, suc, ◌+◌, ◌-◌, ◌*◌, ◌/◌, ◌%◌, ◌^◌, ◌==◌, ◌<◌, ◌≤◌, ◌≡◌, refl, sym, ap, ◌∙◌, ◌≢◌, Bool,
  true, false, Option, none, some, if◌then◌else◌, arith,
}
use filebench_pre_fsl.Vars.{
  Op, assign, var_sum_vc, var_dif_vc, c_dif_var, var_mul_vc, var_div_vc, c_div_var, OpType, SetTo,
  int_set, indvar_set, Val, integer, varptr2, Var, has_binop,
}
use filebench_pre_fsl.Vars.Eval.{
  Doubles, RndGet, Got, got, fault, spins, bind_got, of_option, through, int_op, second_int,
  var_binary_integer_op, int_of, var_get_int,
}

-- What a script writes on the right of an assignment, with the variables' own values put in.
pub data Expr : Type 0 where
  const : ℕ → Expr
  apply : Op → (src1 src2 : Expr) → Expr

infixl 1 ◌>>=◌
abbrev ◌>>=◌ : {A B : Type 0} → Option A → (A → Option B) → Option B
none >>= f = none
some a >>= f = f a

-- The quotient, where there is one.
abbrev pub quotient : ℕ → ℕ → Option ℕ
quotient a zero = none
quotient a (suc b) = some (a / suc b)

-- What an operation stands for on unsigned numbers of 64 bits: "var - const" and "var / const" have
-- the first operand on the left, "const - var" and "const / var" the second one.
abbrev pub meaning : Op → (first second : ℕ) → Option ℕ
meaning assign a b = some 0
meaning var_sum_vc a b = some ((a + b) % 2 ^ 64)
meaning var_mul_vc a b = some (a * b % 2 ^ 64)
meaning var_dif_vc a b = some ((a + 2 ^ 64 - b) % 2 ^ 64)
meaning c_dif_var a b = some ((b + 2 ^ 64 - a) % 2 ^ 64)
meaning var_div_vc a b = quotient a b
meaning c_div_var a b = quotient b a

-- Its value over uint64_t; `none` is a division by zero.
unfoldable pub denote : Expr → Option ℕ
denote (const n) = some n
denote (apply op src1 src2) = do b ← denote src2; a ← denote src1; meaning op a b

-- The longest chain of variables that var_get_int follows.
unfoldable pub height : Expr → ℕ
height (const n) = 1
height (apply op src1 src2) = 1 + height src1 + height src2

module _ {D : Type 0} where
  -- What a variable stands for: an integer, or an operation over what its operands stand for.
  pub data Means (vars : ℕ → Var D) : ℕ → Expr → Type 0 where
    is_int :
        {a : ℕ} {n : ℕ}
        → (vars a).set_to ≡ int_set
        → (vars a).val ≡ integer n
        → Means vars a (const n)
    with_int :
        {a p : ℕ} {n : ℕ} {e : Expr}
        → (vars a).set_to ≡ indvar_set
        → (vars a).ind.binop_int ≡ true
        → (vars a).ind.binop_dbl ≡ false
        → (vars a).val ≡ integer n
        → (vars a).varptr1 ≡ some p
        → Means vars p e
        → Means vars a (apply ((vars a).ind.op) e (const n))
    with_var :
        {a p q : ℕ} {e f : Expr}
        → (vars a).set_to ≡ indvar_set
        → (vars a).ind.binop_int ≡ true
        → (vars a).ind.binop_dbl ≡ true
        → (vars a).val ≡ varptr2 (some q)
        → (vars a).varptr1 ≡ some p
        → Means vars p e
        → Means vars q f
        → Means vars a (apply ((vars a).ind.op) e f)

quotient_lem : (a b : ℕ) → (if b == 0 then none else some (a / b)) ≡ quotient a b
quotient_lem a zero = refl
quotient_lem a (suc b) = let more : (suc b == 0) ≡ false = ground arith in rw more refl

int_op_lem : (op : Op) (a b : ℕ) → int_op op a b ≡ meaning op a b
unfolding int_op
int_op_lem assign a b = refl
int_op_lem var_sum_vc a b = refl
int_op_lem var_mul_vc a b = refl
int_op_lem var_dif_vc a b = refl
int_op_lem c_dif_var a b = refl
int_op_lem var_div_vc a b = quotient_lem a b
int_op_lem c_div_var a b = quotient_lem b a

module _ {D S : Type 0} (F : Doubles D) (rnd_get : RndGet D S) where
  of_int_op :
      (op : Op) (x : Option ℕ) (b : ℕ) (u : S)
      → bind_got (of_option x u) (λ a t. of_option (int_op op a b) t)
        ≡ of_option (x >>= λ a. meaning op a b) u
  of_int_op op none b u = refl
  of_int_op op (some a) b u = ap (λ o. of_option o u) (int_op_lem op a b)

  operands :
      (op : Op) (g : S → Got ℕ S) (x y : Option ℕ) (u : S)
      → ((t : S) → g t ≡ of_option x t)
      → bind_got (of_option y u) (λ b t. bind_got (g t) (λ a t'. of_option (int_op op a b) t'))
        ≡ of_option (y >>= λ b. x >>= λ a. meaning op a b) u
  operands op g x none u h = refl
  operands op g x (some b) u h = rw (h u) (of_int_op op x b u)

  -- Where a variable stands for an expression, var_get_int with fuel for the expression's height
  -- ends: with the expression's value over uint64_t, the random source unchanged, or with a fault
  -- where the expression divides by zero.
  pub var_get_int_denotes :
      (vars : ℕ → Var D) (a : ℕ) (e : Expr) (fuel : ℕ) (u : S)
      → Means vars a e
      → height e ≤ fuel
      → var_get_int F rnd_get fuel vars a u ≡ of_option (denote e) u
  unfolding var_get_int int_of var_binary_integer_op second_int has_binop height denote
  var_get_int_denotes vars a _ zero u (is_int s v) h = absurd (omega arith)
  var_get_int_denotes vars a _ (suc fuel) u (is_int s v) h = rw (s, v) refl
  var_get_int_denotes vars a _ zero u (with_int s i d v p m) h = absurd (omega arith)
  var_get_int_denotes vars a (apply op e (const n)) (suc fuel) u (with_int s i d v p m) h =
      rw (s, i, d, v, p, var_get_int_denotes vars _ e fuel u m (omega arith))
        (of_int_op ((vars a).ind.op) (denote e) n u)
  var_get_int_denotes vars a _ zero u (with_var s i d v p m k) h = absurd (omega arith)
  var_get_int_denotes vars a (apply op e f) (suc fuel) u (with_var s i d v p m k) h =
      rw (s, i, d, v, p, var_get_int_denotes vars _ f fuel u k (omega arith))
        (operands ((vars a).ind.op) (λ t. var_get_int F rnd_get fuel vars _ t) (denote e) (denote f)
          u (λ t. var_get_int_denotes vars _ e fuel t m (omega arith)))
