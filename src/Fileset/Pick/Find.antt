-- ===== src/Fileset/Pick/Find.antt =====
-- What fileset_find_entry finds.
use filebench_pre_fsl.Base.{
  ℕ, ◌≤◌, ◌<◌, ◌≡◌, sym, ◌∙◌, ap, ◌≢◌, ◌⊎◌, inl, inr, true, false, Option, none, some, arith,
  Bool-cases, Option-cases,
}
use filebench_pre_fsl.Fileset.Avl.{Avl, AvlLaws, mem, found}
use filebench_pre_fsl.Fileset.Pick.{fileset_find_entry}
use filebench_pre_fsl.Fileset.Pick.Scan.{first_Least}

module _ (a : Avl) (laws : AvlLaws a) (t : a.Tree) where
  -- The next member in circular order.
  abbrev pub FoundEntry : ℕ → Option ℕ → Type 0
  FoundEntry index r =
      (e : ℕ) × (r ≡ some e)
      × (mem a t e ≡ true)
      × (((index ≤ e) × ((k : ℕ) → mem a t k ≡ true → index ≤ k → e ≤ k))
          ⊎ (((k : ℕ) → mem a t k ≡ true → k < index) × ((k : ℕ) → mem a t k ≡ true → e ≤ k)))

  not_index : (index k : ℕ) → mem a t index ≡ false → mem a t k ≡ true → k ≢ index
  not_index index k absent mk e = let same : mem a t k ≡ mem a t index = ap (mem a t) e in cc

  find_present : (index : ℕ) → mem a t index ≡ true → fileset_find_entry a t index ≡ some index
  unfolding fileset_find_entry
  find_present index h = elim (Option-cases (a.avl_find t index)) [
    | inl missing ↦ let clash : false ≡ true = ap found (sym missing) ∙ h in cc
    | inr (e, e_found) ↦
        let same : e ≡ index = laws.find_self t index e e_found in
        rw (e_found, fileset_find_entry) (ap some same)
  ]

  find_absent :
      (index : ℕ)
      → mem a t index ≡ false
      → fileset_find_entry a t index
        ≡ elim (a.avl_nearest t index) [ some e ↦ some e | none ↦ a.avl_first t ]
  unfolding fileset_find_entry
  find_absent index h = elim (Option-cases (a.avl_find t index)) [
    | inl absent ↦ rw (absent, fileset_find_entry)
    | inr (e, e_found) ↦ let clash : true ≡ false = ap found (sym e_found) ∙ h in cc
  ]

  -- In a tree with a member, fileset_find_entry gives the least member at or above the index, or
  -- the least of all where every member is below the index; it is never NULL.
  pub fileset_find_entry-FoundEntry :
      (index member : ℕ) → mem a t member ≡ true → FoundEntry index (fileset_find_entry a t index)
  fileset_find_entry-FoundEntry index member m = elim (Bool-cases (mem a t index)) [
    | inl here ↦ (index, find_present index here, here, inl (omega arith, λ k mk le. le))
    | inr absent ↦ elim (laws.nearest_lem t index absent) [
      | inl (stop, last) ↦
          let (e, first, me, least) = first_Least a laws t member m in
          (
            e,
            find_absent index absent ∙ rw stop first,
            me,
            inr (
              λ k mk.
                  let le : k ≤ index = last k mk in
                  let ne : k ≢ index = not_index index k absent mk in omega arith,
              least,
            ),
          )
      | inr (e, step, me, above, least) ↦ (
        e,
        find_absent index absent ∙ rw step,
        me,
        inl (
          omega arith,
          λ k mk le. let ne : k ≢ index = not_index index k absent mk in least k mk (omega arith),
        ),
      )
    ]
  ]
