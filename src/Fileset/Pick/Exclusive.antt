-- ===== src/Fileset/Pick/Exclusive.antt =====
-- A picked entry is its picker's alone, and a pick that can find one does.
use filebench_pre_fsl.Base.{
  ℕ, ◌<◌, ◌≡◌, sym, ap, ◌∙◌, ◌≢◌, ◌⊎◌, inl, inr, Bool, true, false, Option, none, arith,
}
use filebench_pre_fsl.Fileset.Avl.{Avl, AvlLaws}
use filebench_pre_fsl.Fileset.State.{Kind, Entry, Fileset, group, GroupInv}
use filebench_pre_fsl.Fileset.Pick.{
  PickFlags, Picked, picked, empty, waits, null_locked, null_fault, out_of_fuel, max_entries,
  fileset_pick,
}
use filebench_pre_fsl.Fileset.Pick.Choose.{wanted}
use filebench_pre_fsl.Fileset.Pick.Outcome.{
  PickOutcome, picks, nothing, blocks, locked, fileset_pick_outcome,
}

module _ (a : Avl) where
  abbrev entry_of : ℕ → Picked a.Tree → ℕ
  entry_of other (picked fs e) = e
  entry_of other (empty fs) = other
  entry_of other waits = other
  entry_of other null_locked = other
  entry_of other null_fault = other
  entry_of other out_of_fuel = other

  abbrev fileset_of : Fileset a.Tree → Picked a.Tree → Fileset a.Tree
  fileset_of other (picked fs e) = fs
  fileset_of other (empty fs) = fs
  fileset_of other waits = other
  fileset_of other null_locked = other
  fileset_of other null_fault = other
  fileset_of other out_of_fuel = other

  abbrev is_picked : Picked a.Tree → Bool
  is_picked (picked fs e) = true
  is_picked (empty fs) = false
  is_picked waits = false
  is_picked null_locked = false
  is_picked null_fault = false
  is_picked out_of_fuel = false

  module _ (laws : AvlLaws a) (randomno64 : ℕ → Option ℕ) (kind : Kind) where
    pub picked_facts :
        (flags : PickFlags) (index : ℕ) (fs fs' : Fileset a.Tree) (e : ℕ) (r : Picked a.Tree)
        → PickOutcome a randomno64 kind flags index fs r
        → r ≡ picked fs' e
        → (((group fs kind).entries e).busy ≡ false)
          × (((group fs' kind).entries e).busy ≡ true)
          × GroupInv a (group fs' kind)
    picked_facts flags index fs fs' e r (picks fs1 e1 is lt w idle grabbed inv same) found =
        let same_entry : e1 ≡ e = ap (entry_of 0) (sym is ∙ found) in
        let same_fileset : fs1 ≡ fs' = ap (fileset_of fs) (sym is ∙ found) in
        rw (← same_entry, ← same_fileset)
          (idle, ap (λ (f : ℕ → Entry). (f e1).busy) grabbed.entries ∙ ground arith, inv)
    picked_facts flags index fs fs' e r (nothing fs1 is _ _ _) found =
        let clash : false ≡ true = ap is_picked (sym is ∙ found) in ground arith
    picked_facts flags index fs fs' e r (blocks is _) found =
        let clash : false ≡ true = ap is_picked (sym is ∙ found) in ground arith
    picked_facts flags index fs fs' e r (locked is _ _ _) found =
        let clash : false ≡ true = ap is_picked (sym is ∙ found) in ground arith

    -- From a well-formed group, two picks of the same kind of entry, one right after the other,
    -- never return the same entry, whatever their flags, indices and threads.
    pub fileset_pick_exclusive :
        (flags flags' : PickFlags) (tid tid' index index' : ℕ) (fs fs1 fs2 : Fileset a.Tree)
        (e e' : ℕ)
        → GroupInv a (group fs kind)
        → fileset_pick a randomno64 fs kind flags tid index ≡ picked fs1 e
        → fileset_pick a randomno64 fs1 kind flags' tid' index' ≡ picked fs2 e'
        → e ≢ e'
    fileset_pick_exclusive flags flags' tid tid' index index' fs fs1 fs2 e e' inv first second
          same =
        let one =
          picked_facts flags index fs fs1 e _
            (fileset_pick_outcome a laws randomno64 kind flags index fs inv tid) first in
        let two =
          picked_facts flags' index' fs1 fs2 e' _
            (fileset_pick_outcome a laws randomno64 kind flags' index' fs1 one.2 tid') second in
        let clash : true ≡ false =
          sym one.1 ∙ ap (λ k. ((group fs1 kind).entries k).busy) same ∙ two.0 in
        ground arith

    -- On a well-formed group a pick succeeds whenever the kind has a list, some entry in use of the
    -- wanted state is not busy, and no random number is needed (the pick is not for a unique entry,
    -- or has an index) or it can be had.
    pub fileset_pick_succeeds :
        (flags : PickFlags) (tid index : ℕ) (fs : Fileset a.Tree) (k : ℕ)
        → GroupInv a (group fs kind)
        → (group fs kind).listed ≡ true
        → k < (group fs kind).created
        → wanted kind flags ((group fs kind).entries k) ≡ true
        → ((group fs kind).entries k).busy ≡ false
        → (flags.unique ≡ false)
          ⊎ ((index ≢ 0) ⊎ (randomno64 (max_entries kind (group fs kind)) ≢ none))
        → (fs' : Fileset a.Tree) × (e : ℕ) × (fileset_pick a randomno64 fs kind flags tid index
            ≡ picked fs' e)
    fileset_pick_succeeds flags tid index fs k inv listed lt is_wanted idle random =
        elim (fileset_pick_outcome a laws randomno64 kind flags index fs inv tid) [
          | picks fs' e is _ _ _ _ _ _ ↦ (fs', e, is)
          | nothing fs' is why _ _ ↦ elim why [
            | inl unlisted ↦ (let clash : true ≡ false = sym listed ∙ unlisted in ground arith)
            | inr all_busy ↦
                let clash : true ≡ false = sym (all_busy k lt is_wanted) ∙ idle in ground arith
          ]
          | blocks is all_busy ↦
              let clash : true ≡ false = sym (all_busy k lt) ∙ idle in ground arith
          | locked is unique no_index failed ↦ elim random [
            | inl not_unique ↦ let clash : true ≡ false = sym unique ∙ not_unique in ground arith
            | inr other ↦ elim other [
              | inl has_index ↦ absurd (has_index no_index)
              | inr had ↦ absurd (had failed)
            ]
          ]
        ]
