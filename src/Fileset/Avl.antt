-- ===== src/Fileset/Avl.antt =====
-- The AVL trees that filebench/fileset.c calls, after the Solaris kernel's: an interface. A node is
-- named by its fse_index, the key of fileset_entry_compare, which is unique in a tree.
use filebench_pre_fsl.Base.{
  ℕ, ◌≤◌, ◌<◌, ◌≡◌, ◌⊎◌, Bool, true, false, not, ◌&&◌, ◌||◌, Option, none, some, ◌==◌,
}

pub record Avl : Type 1 where
  pub Tree : Type 0
  pub avl_add : Tree → ℕ → Tree
  pub avl_remove : Tree → ℕ → Tree
  pub avl_find : Tree → ℕ → Option ℕ
  -- avl_nearest(tree, where, AVL_AFTER), with the place that a failed avl_find leaves
  pub avl_nearest : Tree → ℕ → Option ℕ
  pub avl_first : Tree → Option ℕ
  -- AVL_NEXT of a node of the tree
  pub avl_next : Tree → ℕ → Option ℕ
  pub avl_is_empty : Tree → Bool

abbrev pub found : Option ℕ → Bool
found none = false
found (some _) = true

-- A tree holds the indices that avl_find finds in it.
abbrev pub mem : (a : Avl) → a.Tree → ℕ → Bool
mem a t i = found (a.avl_find t i)

-- The least member above `i`, or `none` where there is none.
abbrev pub NextAbove : (a : Avl) → a.Tree → ℕ → Option ℕ → Type 0
NextAbove a t i r =
    ((r ≡ none) × ((k : ℕ) → mem a t k ≡ true → k ≤ i))
    ⊎ ((j : ℕ) × (r ≡ some j)
        × (mem a t j ≡ true)
        × (i < j)
        × ((k : ℕ) → mem a t k ≡ true → i < k → j ≤ k))

abbrev pub Least : (a : Avl) → a.Tree → Option ℕ → Type 0
Least a t r =
    ((r ≡ none) × ((k : ℕ) → mem a t k ≡ false))
    ⊎ ((j : ℕ) × (r ≡ some j) × (mem a t j ≡ true) × ((k : ℕ) → mem a t k ≡ true → j ≤ k))

-- What fb_avl.h documents of these calls: adding wants an absent node, removing and stepping a
-- present one.
pub record AvlLaws (a : Avl) : Type 0 where
  pub find_self : (t : a.Tree) (i j : ℕ) → a.avl_find t i ≡ some j → j ≡ i
  pub mem-add :
      (t : a.Tree) (i j : ℕ) → mem a t i ≡ false → mem a (a.avl_add t i) j ≡ ((i == j) || mem a t j)
  pub mem-remove :
      (t : a.Tree) (i j : ℕ)
      → mem a t i ≡ true
      → mem a (a.avl_remove t i) j ≡ (not (i == j) && mem a t j)
  pub nearest_lem : (t : a.Tree) (i : ℕ) → mem a t i ≡ false → NextAbove a t i (a.avl_nearest t i)
  pub next_lem : (t : a.Tree) (i : ℕ) → mem a t i ≡ true → NextAbove a t i (a.avl_next t i)
  pub first_lem : (t : a.Tree) → Least a t (a.avl_first t)
  pub is_empty_lem :
      (t : a.Tree)
      → ((a.avl_is_empty t ≡ true) × ((k : ℕ) → mem a t k ≡ false))
        ⊎ ((a.avl_is_empty t ≡ false) × (k : ℕ) × (mem a t k ≡ true))
