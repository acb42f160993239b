-- ===== src/Threads/TakeOut.antt =====
-- Taking an element out of a linked list, as the walks of threadflow.c do: its own link stays.
use filebench_pre_fsl.Base.{
  ℕ, zero, suc, ◌≤◌, ◌≡◌, refl, sym, ap, ◌∙◌, inl, inr, Bool, true, false, Option, some, List, [],
  ◌∷◌, ◌++◌, ◌==◌, length, update, update_other, Bool-cases, arith,
}
use filebench_pre_fsl.Flows.{unlinked, walk, unlink}
use filebench_pre_fsl.Flows.Chain.{Chain, NoDup, remove, contains, unlink_removes}

walk_keeps :
    (fuel fo e : ℕ) (head : Option ℕ) (next : ℕ → Option ℕ) (list : List ℕ)
    → (fo == e) ≡ false
    → Chain next (next e) list
    → (b : Bool) (head' : Option ℕ) (next' : ℕ → Option ℕ)
    → walk fuel head next e fo ≡ unlinked b head' next'
    → next' fo ≡ next fo
unfolding walk
walk_keeps zero fo e head next list ne c b head' next' r = cc
walk_keeps (suc fuel) fo e head next [] ne c b head' next' r =
    let r' : unlinked false head next ≡ unlinked b head' next' = rw (c, walk) at r in
    let same : next ≡ next' = cc in ap (λ f. f fo) (sym same)
walk_keeps (suc fuel) fo e head next (n ∷ list) ne c b head' next' r = elim (Bool-cases (fo == n)) [
  | inl here ↦
      let r' : unlinked true head (update next e (next n)) ≡ unlinked b head' next' =
        rw (c.0, here, walk) at r in
      let same : update next e (next n) ≡ next' = cc in
      ap (λ f. f fo) (sym same) ∙ update_other next e fo (next n) (λ eq. ground arith)
  | inr later ↦
      walk_keeps fuel fo n head next list later c.1 b head' next' (rw (c.0, later, walk) at r)
]

-- A threadflow's own link stays when it is taken out.
unlink_keeps :
    (fuel fo h : ℕ) (next : ℕ → Option ℕ) (list : List ℕ)
    → Chain next (next h) list
    → (b : Bool) (head' : Option ℕ) (next' : ℕ → Option ℕ)
    → unlink fuel (some h) next fo ≡ unlinked b head' next'
    → next' fo ≡ next fo
unfolding unlink
unlink_keeps fuel fo h next list c b head' next' r = elim (Bool-cases (fo == h)) [
  | inl here ↦
      let r' : unlinked true (next fo) next ≡ unlinked b head' next' = rw (here, unlink) at r in
      let same : next ≡ next' = cc in ap (λ f. f fo) (sym same)
  | inr later ↦
      walk_keeps fuel fo h (some h) next list later c b head' next' (rw (later, unlink) at r)
]

pub contains-append : (a : ℕ) (xs list : List ℕ) → contains a (xs ++ (a ∷ list)) ≡ true
contains-append a [] list = let same : (a == a) ≡ true = ground arith in rw same refl
contains-append a (x ∷ xs) list = elim (Bool-cases (a == x)) [
  | inl here ↦ rw here refl
  | inr later ↦ rw later (contains-append a xs list)
]

-- Taking out an element of a chain.
pub record TakenOut (reach t : ℕ) (head : Option ℕ) (next : ℕ → Option ℕ) (list : List ℕ)
    : Type 0 where
  pub head' : Option ℕ
  pub next' : ℕ → Option ℕ
  pub result : unlink reach head next t ≡ unlinked true head' next'
  pub chain : Chain next' head' list
  pub own : next' t ≡ next t

pub taken_out :
    (reach t : ℕ) (head : Option ℕ) (next : ℕ → Option ℕ) (list : List ℕ)
    → contains t list ≡ true
    → length list ≤ reach
    → NoDup list
    → Chain next head list
    → TakenOut reach t head next (remove t list)
taken_out reach t head next [] found lt d c = absurd cc
taken_out reach t head next (x ∷ xs) found lt d c =
    let (head', next', e, w) = unlink_removes reach t x next xs (omega arith) d (refl, c.1) in
    let e' : unlink reach (some x) next t ≡ unlinked true head' next' = rw found at e in
    record {
      head' = head';
      next' = next';
      result = ap (λ h. unlink reach h next t) (c.0) ∙ e';
      chain = w.chain;
      own = unlink_keeps reach t x next xs c.1 true head' next' e';
    }
