-- ===== src/Vars/Find.antt =====
-- filebench/vars.c: what the lookups by name find, before and after a variable is written or added.
use filebench_pre_fsl.Base.{
  ℕ, true, false, ◌≡◌, refl, sym, ap, ◌∙◌, ◌≢◌, ◌⊎◌, inl, inr, Option, none, some, List, [], ◌∷◌,
  ◌++◌, ◌==◌, if◌then◌else◌, Bool-cases, ==_iff, and_left, and_right, All, arith,
}
use filebench_pre_fsl.Vars.{Str, strcmp_eq, Var, var_find_list_only, or_else}

pub strcmp_refl : (str : Str) → strcmp_eq str str ≡ true
unfolding strcmp_eq
strcmp_refl [] = refl
strcmp_refl (c ∷ cs) = ground (arith, strcmp_refl cs)

pub strcmp_sound : (a b : Str) → strcmp_eq a b ≡ true → a ≡ b
unfolding strcmp_eq
strcmp_sound [] [] h = refl
strcmp_sound [] (y ∷ ys) h = absurd (cc)
strcmp_sound (x ∷ xs) [] h = absurd (cc)
strcmp_sound (x ∷ xs) (y ∷ ys) h =
    let same : x ≡ y = (==_iff x y).0 (and_left (x == y) (strcmp_eq xs ys) h) in
    let rest = strcmp_sound xs ys (and_right (x == y) (strcmp_eq xs ys) h) in cc

pub strcmp_differ : (a b : Str) → a ≢ b → strcmp_eq a b ≡ false
strcmp_differ a b h = elim (Bool-cases (strcmp_eq a b)) [
  | inl same ↦ absurd (h (strcmp_sound a b same))
  | inr other ↦ other
]

module _ {D : Type 0} where
  -- The variable found has the name, in the list or by both.
  pub find_name :
      (vars : ℕ → Var D) (str : Str) (list : List ℕ) (a : ℕ)
      → var_find_list_only vars str list ≡ some a
      → (vars a).name ≡ str
  unfolding var_find_list_only
  find_name vars str [] a h = absurd (cc)
  find_name vars str (b ∷ list) a h = elim (Bool-cases (strcmp_eq ((vars b).name) str)) [
    | inl same ↦
        let e : some b ≡ some a = rw same at h in
        let e' : b ≡ a = cc in
        ap (λ c. (vars c).name) (sym e') ∙ strcmp_sound ((vars b).name) str same
    | inr other ↦ find_name vars str list a (rw other at h)
  ]

  -- Only the names of the listed variables matter.
  pub find_ext :
      (vars vars' : ℕ → Var D) (str : Str) (list : List ℕ)
      → All (λ b. (vars' b).name ≡ (vars b).name) list
      → var_find_list_only vars' str list ≡ var_find_list_only vars str list
  unfolding var_find_list_only
  find_ext vars vars' str [] h = refl
  find_ext vars vars' str (b ∷ list) h = rw (h.0, find_ext vars vars' str list h.1) refl

  pub find_append :
      (vars : ℕ → Var D) (str : Str) (xs : List ℕ) (a : ℕ)
      → var_find_list_only vars str (xs ++ (a ∷ []))
        ≡ or_else
            (var_find_list_only vars str xs)
            (if strcmp_eq ((vars a).name) str then some a else none)
  unfolding var_find_list_only
  find_append vars str [] a = refl
  find_append vars str (b ∷ xs) a = elim (Bool-cases (strcmp_eq ((vars b).name) str)) [
    | inl same ↦ rw same refl
    | inr other ↦ rw other (find_append vars str xs a)
  ]

  pub find_Listed :
      (P : ℕ → Type 0) (vars : ℕ → Var D) (str : Str) (list : List ℕ) (a : ℕ)
      → All P list
      → var_find_list_only vars str list ≡ some a
      → P a
  unfolding var_find_list_only
  find_Listed P vars str [] a h e = absurd (cc)
  find_Listed P vars str (b ∷ list) a h e = elim (Bool-cases (strcmp_eq ((vars b).name) str)) [
    | inl same ↦
        let same' : some b ≡ some a = rw same at e in let same'' : b ≡ a = cc in rw (← same'') (h.0)
    | inr other ↦ find_Listed P vars str list a h.1 (rw other at e)
  ]

-- A predicate that holds of all elements, weakened.
pub All-map :
    {A : Type 0} (P Q : A → Type 0) (xs : List A) → ((x : A) → P x → Q x) → All P xs → All Q xs
All-map P Q [] f h = tt
All-map P Q (x ∷ xs) f h = (f x h.0, All-map P Q xs f h.1)

pub All-append_one :
    {A : Type 0} (P : A → Type 0) (xs : List A) (x : A) → All P xs → P x → All P (xs ++ (x ∷ []))
All-append_one P [] x h p = (p, tt)
All-append_one P (y ∷ ys) x h p = (h.0, All-append_one P ys x h.1 p)

pub or_else-some :
    {A : Type 0} (o p : Option A) (a : A)
    → or_else o p ≡ some a
    → (o ≡ some a) ⊎ ((o ≡ none) × (p ≡ some a))
or_else-some none p a h = inr (refl, h)
or_else-some (some b) p a h = inl h

pub or_else-none : {A : Type 0} (o p : Option A) → or_else o p ≡ none → (o ≡ none) × (p ≡ none)
or_else-none none p h = (refl, h)
or_else-none (some b) p h = absurd (cc)

pub All-every : {A : Type 0} (P : A → Type 0) (xs : List A) → ((x : A) → P x) → All P xs
All-every P [] f = tt
All-every P (x ∷ xs) f = (f x, All-every P xs f)
