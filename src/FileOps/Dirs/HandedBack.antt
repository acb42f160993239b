-- ===== src/FileOps/Dirs/HandedBack.antt =====
-- A picked entry that a flowop of FileOps.Dirs unbusies again.
use filebench_pre_fsl.Base.{
  ℕ, ◌<◌, ◌≡◌, ap, ◌∙◌, ◌≢◌, ◌⊎◌, inl, inr, Bool, true, false, update, update_same,
}
use filebench_pre_fsl.Base.Int.{pos}
use filebench_pre_fsl.Fileset.Avl.{Avl, AvlLaws}
use filebench_pre_fsl.Fileset.State.{
  Kind, dir, Entry, Fileset, group, GroupInv, SameElsewhere, group-set_group,
}
use filebench_pre_fsl.Fileset.Unbusy.{fileset_unbusy, unbusy_group}
use filebench_pre_fsl.Fileset.Unbusy.Inv.{release-GroupInv}
use filebench_pre_fsl.Fileset.Unbusy.Laws.{
  flagged, released, OnlyEntry, fileset_unbusy-GroupInv, fileset_unbusy_outcome, update-update,
}
use filebench_pre_fsl.Fileset.Pick.Grab.{Grabbed}

-- An entry that was picked and unbusied again.
abbrev pub handed_back : (updates new_exist : Bool) → Entry → Entry
handed_back updates new_exist x =
    released (flagged updates new_exist (record x { busy = true })) (pos 0)

module _ (a : Avl) where
  -- What is true once a picked entry is unbusied.
  abbrev pub HandedBack :
      Kind → (updates new_exist : Bool) → Fileset a.Tree → Fileset a.Tree → ℕ → Type 0
  HandedBack kind updates new_exist fs fs' e =
      OnlyEntry (group fs kind) (group fs' kind) e
        (handed_back updates new_exist ((group fs kind).entries e))
      × GroupInv a (group fs' kind)
      × SameElsewhere kind fs fs'

module _ (a : Avl) (laws : AvlLaws a) where
  unbusied-GroupInv :
      (kind : Kind) (fs : Fileset a.Tree) (e : ℕ) (updates new_exist : Bool)
      → (updates ≡ false) ⊎ (kind ≢ dir)
      → e < (group fs kind).created
      → GroupInv a (group fs kind)
      → GroupInv a (group (fileset_unbusy a fs kind e updates new_exist (pos 0)).0 kind)
  unfolding fileset_unbusy unbusy_group
  unbusied-GroupInv kind fs e updates new_exist (inr ne) lt inv =
      fileset_unbusy-GroupInv a fs kind e updates new_exist (pos 0) laws ne lt inv
  unbusied-GroupInv kind fs e true new_exist (inl keeps) lt inv = absurd (cc)
  unbusied-GroupInv kind fs e false new_exist (inl keeps) lt inv =
      rw ((group-set_group fs kind _).0) (release-GroupInv a laws (group fs kind) e (pos 0) lt inv)

  pub Grabbed-HandedBack :
      (kind : Kind) (fs fs' : Fileset a.Tree) (e : ℕ) (updates new_exist : Bool)
      → (updates ≡ false) ⊎ (kind ≢ dir)
      → e < (group fs kind).created
      → Grabbed (group fs kind) (group fs' kind) e
      → GroupInv a (group fs' kind)
      → SameElsewhere kind fs fs'
      → HandedBack a kind updates new_exist fs
          (fileset_unbusy a fs' kind e updates new_exist (pos 0)).0
          e
  Grabbed-HandedBack kind fs fs' e updates new_exist keeps lt taken inv same =
      let outcome = fileset_unbusy_outcome a fs' kind e updates new_exist (pos 0) in
      let old = (group fs kind).entries in
      let busy : Entry = record (old e) { busy = true } in
      let now : Entry → Entry = (λ x. released (flagged updates new_exist x) (pos 0)) in
      (
        λ k.
            outcome.0 k
            ∙ ap (λ (f : ℕ → Entry). update f e (now (f e)) k) taken.entries
            ∙ ap (λ x. update (update old e busy) e (now x) k) (update_entry old e busy)
            ∙ update-update a old e busy (now busy) k,
        unbusied-GroupInv kind fs' e updates new_exist keeps (rw taken.created lt) inv,
        λ other ne. outcome.1 other ne ∙ same other ne,
      )
    where
      update_entry : (f : ℕ → Entry) (i : ℕ) (x : Entry) → update f i x i ≡ x
      update_entry f i x = update_same f i x
