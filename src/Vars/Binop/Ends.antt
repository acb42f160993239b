-- ===== src/Vars/Binop/Ends.antt =====
-- filebench/vars.c: when reading a variable comes to an end.
use filebench_pre_fsl.Base.{
  ℕ, zero, suc, ◌<◌, ◌≡◌, refl, ap, ◌⊎◌, inl, inr, true, Option, none, some, Bool-cases, if_elim,
  if◌then◌else◌, arith,
}
use filebench_pre_fsl.Vars.{
  SetTo, unset, bool_set, int_set, str_set, dbl_set, rand_set, indvar_set, Val, varptr2, Var,
  has_binop,
}
use filebench_pre_fsl.Vars.Eval.{
  Doubles, RndGet, Got, got, fault, spins, bind_got, of_option, read_int, read_randptr,
  read_varptr2, through, draw, int_op, second_int, var_binary_integer_op, int_of, var_get_int,
}

-- Not out of fuel.
abbrev pub Ends : {V S : Type 0} → Got V S → Type 0
Ends (got v s) = Unit
Ends fault = Unit
Ends spins = ⊥

bind-Ends :
    {V W S : Type 0} (g : Got V S) (f : V → S → Got W S)
    → Ends g
    → ((v : V) (s : S) → Ends (f v s))
    → Ends (bind_got g f)
bind-Ends (got v s) f h k = k v s
bind-Ends fault f h k = tt
bind-Ends spins f h k = elim h [ ]

of_option-Ends : {V S : Type 0} (o : Option V) (s : S) → Ends (of_option o s)
of_option-Ends none s = tt
of_option-Ends (some v) s = tt

module _ {D : Type 0} where
  -- An operand that a binary operation leads to.
  abbrev pub Operand : Var D → ℕ → Type 0
  Operand v p = (v.varptr1 ≡ some p) ⊎ (v.val ≡ varptr2 (some p))

  -- Ranks that fall from each binary operation to its operands: no variable refers to itself, not by
  -- way of others either.
  abbrev pub Ranked : (ℕ → Var D) → (ℕ → ℕ) → Type 0
  Ranked vars rank = (a p : ℕ) → has_binop (vars a) ≡ true → Operand (vars a) p → rank p < rank a

module _ {D S : Type 0} (F : Doubles D) (rnd_get : RndGet D S) where
  through-Ends :
      (get : ℕ → S → Got ℕ S) (o : Option ℕ) (t : S)
      → ((p : ℕ) → o ≡ some p → (u : S) → Ends (get p u))
      → Ends (through F rnd_get get 0 o t)
  through-Ends get none t h = tt
  through-Ends get (some p) t h = h p refl t

  draw-Ends : (o : Option ℕ) (t : S) → Ends (draw F rnd_get F.to_int 0 o t)
  draw-Ends none t = tt
  draw-Ends (some r) t = tt

  read_varptr2-val : (v : Val D) (p : ℕ) → read_varptr2 v ≡ some (some p) → v ≡ varptr2 (some p)
  read_varptr2-val (varptr2 q) p h = let e : q ≡ some p = cc in ap varptr2 e
  read_varptr2-val _ p h = absurd (cc)

  second_by :
      (get : ℕ → S → Got ℕ S) (o : Option (Option ℕ)) (u : S)
      → ((p : ℕ) → o ≡ some (some p) → (t : S) → Ends (get p t))
      → Ends (bind_got (of_option o u) (λ p t. through F rnd_get get 0 p t))
  second_by get none u h = tt
  second_by get (some p) u h = through-Ends get p u (λ q e t. h q (ap some e) t)

  second_int-Ends :
      (get : ℕ → S → Got ℕ S) (v : Var D) (u : S)
      → ((p : ℕ) → Operand v p → (t : S) → Ends (get p t))
      → Ends (second_int F rnd_get get v u)
  unfolding second_int
  second_int-Ends get v u h = elim (Bool-cases (v.ind.binop_int)) [
    | inr float ↦
        rw (float, second_int)
          (bind-Ends _ (λ d t. got (F.to_int d) t) (of_option-Ends _ u) (λ d t. tt))
    | inl int ↦ elim (Bool-cases (v.ind.binop_dbl)) [
      | inr alone ↦ rw (int, alone, second_int) (of_option-Ends (read_int v.val) u)
      | inl both ↦
          rw (int, both, second_int)
            (second_by get (read_varptr2 v.val) u
              (λ p e t. h p (inr (read_varptr2-val v.val p e)) t))
    ]
  ]

  binop-Ends :
      (get : ℕ → S → Got ℕ S) (v : Var D) (u : S)
      → ((p : ℕ) → Operand v p → (t : S) → Ends (get p t))
      → Ends (var_binary_integer_op F rnd_get get v u)
  unfolding var_binary_integer_op
  binop-Ends get v u h =
      bind-Ends (second_int F rnd_get get v u) _ (second_int-Ends get v u h) (λ src2 t.
        bind-Ends (through F rnd_get get 0 v.varptr1 t) _
          (through-Ends get v.varptr1 t (λ p e w. h p (inl e) w))
          (λ src1 w. of_option-Ends (int_op v.ind.op src1 src2) w))

  not_binop-Ends :
      (get : ℕ → S → Got ℕ S) (v : Var D) (u : S)
      → ((p : ℕ) → has_binop v ≡ true → Operand v p → (t : S) → Ends (get p t))
      → Ends (if has_binop v then var_binary_integer_op F rnd_get get v u else got 0 u)
  not_binop-Ends get v u h =
      if_elim Ends (has_binop v) (λ e. binop-Ends get v u (λ p o t. h p e o t)) (λ _. tt)

  int_of-Ends :
      (get : ℕ → S → Got ℕ S) (v : Var D) (u : S) (set_to : SetTo)
      → v.set_to ≡ set_to
      → ((p : ℕ) → has_binop v ≡ true → Operand v p → (t : S) → Ends (get p t))
      → Ends (int_of F rnd_get get v u)
  unfolding int_of
  int_of-Ends get v u int_set e h = rw (e, int_of) (of_option-Ends (read_int v.val) u)
  int_of-Ends get v u rand_set e h =
      rw (e, int_of)
        (bind-Ends (of_option (read_randptr v.val) u) (λ p t. draw F rnd_get F.to_int 0 p t)
          (of_option-Ends (read_randptr v.val) u) draw-Ends)
  int_of-Ends get v u unset e h = rw (e, int_of) (not_binop-Ends get v u h)
  int_of-Ends get v u bool_set e h = rw (e, int_of) (not_binop-Ends get v u h)
  int_of-Ends get v u str_set e h = rw (e, int_of) (not_binop-Ends get v u h)
  int_of-Ends get v u dbl_set e h = rw (e, int_of) (not_binop-Ends get v u h)
  int_of-Ends get v u indvar_set e h = rw (e, int_of) (not_binop-Ends get v u h)

  -- Where the variables can be ranked so that every binary operation stands above its operands,
  -- var_get_int comes to an end: fuel above the variable's rank never runs out.
  pub var_get_int-Ends :
      (vars : ℕ → Var D) (rank : ℕ → ℕ) (a fuel : ℕ) (u : S)
      → Ranked vars rank
      → rank a < fuel
      → Ends (var_get_int F rnd_get fuel vars a u)
  unfolding var_get_int
  var_get_int-Ends vars rank a zero u r h = absurd (omega arith)
  var_get_int-Ends vars rank a (suc fuel) u r h =
      int_of-Ends (var_get_int F rnd_get fuel vars) (vars a) u ((vars a).set_to) refl
        (λ p b o t. var_get_int-Ends vars rank p fuel t r (omega (arith, r a p b o)))
