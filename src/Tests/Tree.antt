-- ===== src/Tests/Tree.antt =====
-- A set of indices below a bound, in place of the AVL trees, that satisfies their interface.
use filebench_pre_fsl.Base.{
  ℕ, zero, suc, ◌+◌, ◌≤◌, ◌<◌, ◌≡◌, refl, sym, ap, ◌∙◌, ◌⊎◌, inl, inr, Bool, true, false, not, ◌&&◌,
  ◌||◌, Option, none, some, arith, ltb, ◌==◌, if◌then◌else◌, Bool-cases, and_left, ltb→lt,
}
use filebench_pre_fsl.Fileset.Avl.{Avl, AvlLaws, found, mem, NextAbove, Least}

abbrev pub search : (ℕ → Bool) → (lo n : ℕ) → Option ℕ
search p lo zero = none
search p lo (suc n) = if p lo then some lo else search p (suc lo) n

abbrev Found : (ℕ → Bool) → (lo n : ℕ) → Option ℕ → Type 0
Found p lo n r =
    ((r ≡ none) × ((k : ℕ) → lo ≤ k → k < lo + n → p k ≡ false))
    ⊎ ((j : ℕ) × (r ≡ some j) × (p j ≡ true) × (lo ≤ j) × ((k : ℕ) → p k ≡ true → lo ≤ k → j ≤ k))

search_next :
    (p : ℕ → Bool) (lo n : ℕ) (r : Option ℕ)
    → p lo ≡ false
    → Found p (suc lo) n r
    → Found p lo (suc n) r
search_next p lo n r h (inl (e, absent)) = inl (
  e,
  λ k le lt. elim (Bool-cases (k == lo)) [
    | inl same ↦ (let eq : k ≡ lo = ground arith in rw eq h)
    | inr other ↦ absent k (ground arith) (omega arith)
  ],
)
search_next p lo n r h (inr (j, e, pj, le, least)) = inr (
  j,
  e,
  pj,
  omega arith,
  λ k pk lk. elim (Bool-cases (k == lo)) [
    | inl same ↦
        let eq : k ≡ lo = ground arith in
        let clash : true ≡ false = sym pk ∙ ap p eq ∙ h in ground arith
    | inr other ↦ least k pk (ground arith)
  ],
)

search-Found : (p : ℕ → Bool) (lo n : ℕ) → Found p lo n (search p lo n)
search-Found p lo zero = inl (refl, λ k le lt. absurd (omega arith))
search-Found p lo (suc n) = elim (Bool-cases (p lo)) [
  | inl h ↦ rw h (inr (lo, refl, h, omega arith, λ k pk le. le))
  | inr h ↦ rw h (search_next p lo n _ h (search-Found p (suc lo) n))
]

pub record Bounded : Type 0 where
  pub bound : ℕ
  pub has : ℕ → Bool

abbrev pub holds : Bounded → ℕ → Bool
holds t i = ltb i t.bound && t.has i

abbrev pub find : Bounded → ℕ → Option ℕ
find t i = if holds t i then some i else none

abbrev pub bounded : Avl
bounded = record {
  Tree = Bounded;
  avl_add = λ t i. record {
    bound = if ltb i t.bound then t.bound else suc i;
    has = λ j. (i == j) || holds t j;
  };
  avl_remove = λ t i. record { bound = t.bound; has = λ j. not (i == j) && t.has j };
  avl_find = find;
  avl_nearest = λ t i. search (holds t) (suc i) t.bound;
  avl_first = λ t. search (holds t) 0 t.bound;
  avl_next = λ t i. search (holds t) (suc i) t.bound;
  avl_is_empty = λ t. not (found (search (holds t) 0 t.bound));
}

pub mem_holds : (t : Bounded) (i : ℕ) → mem bounded t i ≡ holds t i
mem_holds t i = go (holds t i)
  where
    go : (b : Bool) → found (if b then some i else none) ≡ b
    go true = refl
    go false = refl

bound_of : (t : Bounded) (k : ℕ) → holds t k ≡ true → k < t.bound
bound_of t k h = ltb→lt k t.bound (and_left _ _ h)

next_above : (t : Bounded) (i : ℕ) → NextAbove bounded t i (search (holds t) (suc i) t.bound)
next_above t i = elim (search-Found (holds t) (suc i) t.bound) [
  | inl (e, absent) ↦ inl (e, λ k m. none_above k m absent)
  | inr (j, e, pj, le, least) ↦ inr (
    j,
    e,
    mem_holds t j ∙ pj,
    ground arith,
    λ k m lt. least k (sym (mem_holds t k) ∙ m) (ground arith),
  )
]
  where
    none_above :
        (k : ℕ)
        → mem bounded t k ≡ true
        → ((k' : ℕ) → suc i ≤ k' → k' < suc i + t.bound → holds t k' ≡ false)
        → k ≤ i
    none_above k m absent =
        let h = sym (mem_holds t k) ∙ m in
        let lt = bound_of t k h in
        elim (Bool-cases (ltb i k)) [
          | inl above ↦
              let clash : true ≡ false = sym h ∙ absent k (ground arith) (omega arith) in
              ground arith
          | inr below ↦ ground arith
        ]

first_of : (t : Bounded) → Least bounded t (search (holds t) 0 t.bound)
first_of t = elim (search-Found (holds t) 0 t.bound) [
  | inl (e, absent) ↦ inl (e, λ k. mem_holds t k ∙ none_at_all k absent)
  | inr (j, e, pj, le, least) ↦
      inr (j, e, mem_holds t j ∙ pj, λ k m. least k (sym (mem_holds t k) ∙ m) (ground arith))
]
  where
    none_at_all :
        (k : ℕ) → ((k' : ℕ) → 0 ≤ k' → k' < 0 + t.bound → holds t k' ≡ false) → holds t k ≡ false
    none_at_all k absent = elim (Bool-cases (holds t k)) [
      | inl h ↦ absent k (omega arith) (let lt = bound_of t k h in omega arith)
      | inr h ↦ h
    ]

find_gives : (b : Bool) (i j : ℕ) → (if b then some i else none) ≡ some j → j ≡ i
find_gives true i j e = cc
find_gives false i j e = cc

found_empty :
    (t : Bounded) (r : Option ℕ)
    → Least bounded t r
    → ((not (found r) ≡ true) × ((k : ℕ) → mem bounded t k ≡ false))
      ⊎ ((not (found r) ≡ false) × (k : ℕ) × (mem bounded t k ≡ true))
found_empty t r (inl (e, absent)) = inl (rw e refl, absent)
found_empty t r (inr (j, e, m, least)) = inr (rw e refl, j, m)

add_holds : (t : Bounded) (i j : ℕ) → holds (bounded.avl_add t i) j ≡ ((i == j) || holds t j)
add_holds t i j = ground arith

remove_holds :
    (t : Bounded) (i j : ℕ) → holds (bounded.avl_remove t i) j ≡ (not (i == j) && holds t j)
remove_holds t i j = ground arith

pub bounded-AvlLaws : AvlLaws bounded
bounded-AvlLaws = record {
  find_self = λ t i j e. find_gives (holds t i) i j e;
  mem-add = λ t i j h.
      mem_holds (bounded.avl_add t i) j
      ∙ add_holds t i j
      ∙ ap (λ b. (i == j) || b) (sym (mem_holds t j));
  mem-remove = λ t i j h.
      mem_holds (bounded.avl_remove t i) j
      ∙ remove_holds t i j
      ∙ ap (λ b. not (i == j) && b) (sym (mem_holds t j));
  nearest_lem = λ t i h. next_above t i;
  next_lem = λ t i h. next_above t i;
  first_lem = first_of;
  is_empty_lem = λ t. found_empty t _ (first_of t);
}
