-- ===== src/Flows/Chain.antt =====
-- Linked lists, as flowop.c keeps them: the slots that a head leads to, and taking one out.
use filebench_pre_fsl.Base.{
  ℕ, zero, suc, ◌<◌, ◌≤◌, ◌≡◌, refl, sym, ◌≢◌, inl, inr, Bool, true, false, Option, none, some,
  List, [], ◌∷◌, ◌++◌, ◌==◌, if◌then◌else◌, length, update, update_same, update_other, All,
  Bool-cases, arith,
}
use filebench_pre_fsl.Flows.{unlinked, walk, unlink}

-- The links lead from the head through exactly these slots.
abbrev pub Chain : (ℕ → Option ℕ) → Option ℕ → List ℕ → Type 0
Chain next h [] = h ≡ none
Chain next h (a ∷ list) = (h ≡ some a) × Chain next (next a) list

abbrev pub Without : ℕ → List ℕ → Type 0
Without a list = All (λ b. b ≢ a) list

abbrev pub NoDup : List ℕ → Type 0
NoDup [] = Unit
NoDup (a ∷ list) = Without a list × NoDup list

-- The list without the first occurrence of an element.
abbrev pub remove : ℕ → List ℕ → List ℕ
remove a [] = []
remove a (b ∷ list) = if a == b then list else b ∷ remove a list

abbrev pub contains : ℕ → List ℕ → Bool
contains a [] = false
contains a (b ∷ list) = if a == b then true else contains a list

pub Chain-update :
    (next : ℕ → Option ℕ) (a : ℕ) (v h : Option ℕ) (list : List ℕ)
    → Without a list
    → Chain next h list
    → Chain (update next a v) h list
Chain-update next a v h [] w c = c
Chain-update next a v h (b ∷ list) w c =
    (c.0, rw (update_other next a b v (w.0)) (Chain-update next a v (next b) list w.1 c.1))

-- What a walk behind an element leaves.
pub record Walked (next next' : ℕ → Option ℕ) (list list' : List ℕ) (h : Option ℕ) : Type 0 where
  pub chain : Chain next' h list'
  -- links of other slots are untouched
  pub others : (b : ℕ) → Without b list → next' b ≡ next b

pub walk_removes :
    (fuel fo e : ℕ) (head : Option ℕ) (next : ℕ → Option ℕ) (list : List ℕ)
    → length list < fuel
    → NoDup (e ∷ list)
    → Chain next (next e) list
    → (next' : ℕ → Option ℕ) × (walk fuel head next e fo ≡ unlinked (contains fo list) head next')
      × Walked next next' (e ∷ list) (e ∷ remove fo list) (some e)
unfolding walk
walk_removes zero fo e head next list h d c = absurd (omega arith)
walk_removes (suc fuel) fo e head next [] h d c =
    (next, rw (c, walk) refl, record { chain = (refl, c); others = λ b w. refl })
walk_removes (suc fuel) fo e head next (n ∷ list) h d c = elim (Bool-cases (fo == n)) [
  | inl here ↦ (
    update next e (next n),
    rw (c.0, here, walk) refl,
    record {
      chain = (
        refl,
        rw (here, update_same next e (next n))
            (Chain-update next e (next n) (next n) list (d.0.1) c.1),
      );
      others = λ b w. update_other next e b (next n) (λ same. w.0 (sym same));
    },
  )
  | inr later ↦
      let (next', r, w) = walk_removes fuel fo n head next list (omega arith) d.1 c.1 in
      (
        next',
        rw (c.0, later, walk) r,
        record {
          chain = (refl, rw (later, w.others e (d.0)) (c.0, (w.chain).1));
          others = λ b v. w.others b v.1;
        },
      )
]

pub remove_head : (a : ℕ) (list : List ℕ) → remove a (a ∷ list) ≡ list
remove_head a list = let same : (a == a) ≡ true = ground arith in rw same refl

-- unlink takes the element out, where the list is not empty.
pub unlink_removes :
    (fuel fo h : ℕ) (next : ℕ → Option ℕ) (list : List ℕ)
    → length list < fuel
    → NoDup (h ∷ list)
    → Chain next (some h) (h ∷ list)
    → (head : Option ℕ) × (next' : ℕ → Option ℕ) × (unlink fuel (some h) next fo
        ≡ unlinked (contains fo (h ∷ list)) head next')
      × Walked next next' (h ∷ list) (remove fo (h ∷ list)) head
unfolding unlink
unlink_removes fuel fo h next list lt d c = elim (Bool-cases (fo == h)) [
  | inl here ↦
      let same : fo ≡ h = ground arith in
      (
        next h,
        next,
        rw (here, unlink, same) refl,
        record { chain = rw here c.1; others = λ b w. refl },
      )
  | inr later ↦
      let (next', r, w) = walk_removes fuel fo h (some h) next list lt d c.1 in
      (some h, next', rw (later, unlink) r, record { chain = rw later w.chain; others = w.others })
]

abbrev pub first : List ℕ → Option ℕ
first [] = none
first (a ∷ list) = some a

pub Chain-first :
    (next : ℕ → Option ℕ) (h : Option ℕ) (list : List ℕ) → Chain next h list → h ≡ first list
Chain-first next h [] c = c
Chain-first next h (a ∷ list) c = c.0

-- The links lead on through any tail of a list.
pub Chain-tail :
    (next : ℕ → Option ℕ) (h : Option ℕ) (xs list : List ℕ)
    → Chain next h (xs ++ list)
    → Chain next (first list) list
Chain-tail next h [] list c = rw (← Chain-first next h list c) c
Chain-tail next h (x ∷ xs) list c = Chain-tail next (next x) xs list c.1

pub Without-remove : (a b : ℕ) (list : List ℕ) → Without a list → Without a (remove b list)
Without-remove a b [] w = tt
Without-remove a b (c ∷ list) w = elim (Bool-cases (b == c)) [
  | inl here ↦ rw here w.1
  | inr later ↦ rw later (w.0, Without-remove a b list w.1)
]

pub NoDup-remove : (b : ℕ) (list : List ℕ) → NoDup list → NoDup (remove b list)
NoDup-remove b [] d = tt
NoDup-remove b (c ∷ list) d = elim (Bool-cases (b == c)) [
  | inl here ↦ rw here d.1
  | inr later ↦ rw later (Without-remove c b list d.0, NoDup-remove b list d.1)
]

-- An element between two parts of a list without repetitions.
pub NoDup-before : (a : ℕ) (xs list : List ℕ) → NoDup (xs ++ (a ∷ list)) → Without a xs
NoDup-before a [] list d = tt
NoDup-before a (x ∷ xs) list d = (differs a x xs list d.0, NoDup-before a xs list d.1)
  where
    differs : (a x : ℕ) (xs list : List ℕ) → Without x (xs ++ (a ∷ list)) → x ≢ a
    differs a x [] list w e = w.0 (sym e)
    differs a x (y ∷ ys) list w e = differs a x ys list w.1 e

pub remove-append :
    (a : ℕ) (xs list : List ℕ) → Without a xs → remove a (xs ++ (a ∷ list)) ≡ xs ++ list
remove-append a [] list w = remove_head a list
remove-append a (x ∷ xs) list w = elim (Bool-cases (a == x)) [
  | inl same ↦ absurd (w.0 (ground arith))
  | inr other ↦ rw (other, remove-append a xs list w.1) refl
]

pub contains-remove :
    (a b : ℕ) (list : List ℕ) → a ≢ b → contains a (remove b list) ≡ contains a list
contains-remove a b [] ne = refl
contains-remove a b (c ∷ list) ne = elim (Bool-cases (b == c)) [
  | inl here ↦ let other : (a == c) ≡ false = ground arith in rw (here, other) refl
  | inr later ↦ rw (later, contains-remove a b list ne) refl
]

pub length-remove : (b : ℕ) (list : List ℕ) → length (remove b list) ≤ length list
length-remove b [] = omega arith
length-remove b (c ∷ list) = elim (Bool-cases (b == c)) [
  | inl here ↦ rw here (omega arith)
  | inr later ↦ rw later (omega (arith, length-remove b list))
]
