-- ===== src/Fileset/Pick/Outcome.antt =====
-- What fileset_pick does, on every path.
use filebench_pre_fsl.Base.{
  ℕ, ◌+◌, ◌*◌, ◌<◌, ◌≡◌, refl, sym, ◌∙◌, ◌⊎◌, inl, inr, true, false, Option, none, arith,
  if◌then◌else◌, if_elim, ltb→lt, lt→ltb, and_left, and_right,
}
use filebench_pre_fsl.Base.Int.{is_zero}
use filebench_pre_fsl.Fileset.Avl.{Avl, AvlLaws, mem}
use filebench_pre_fsl.Fileset.Idle.{busy_of_idle-zero}
use filebench_pre_fsl.Fileset.State.{
  Kind, Group, Fileset, group, set_group, idle_below, GroupInv, SameElsewhere, group-set_group,
}
use filebench_pre_fsl.Fileset.Pick.{
  PickFlags, pick_tree, max_entries, pick_scan, Choice, start_at, Picked, picked, empty, waits,
  null_locked, grab, choose, pick_from, fileset_pick,
}
use filebench_pre_fsl.Fileset.Pick.Grab.{Grabbed, grab-Grabbed, Grabbed-GroupInv}
use filebench_pre_fsl.Fileset.Pick.Scan.{Ends, pick_scan-Ends}
use filebench_pre_fsl.Fileset.Pick.Choose.{
  wanted, SameButRotors, pick_tree-wanted, pick_tree-SameButRotors, Chosen, same_group,
  choose-Chosen,
}

module _ (a : Avl) where
  -- The ways a pick of a kind of entry can end.
  pub data PickOutcome (randomno64 : ℕ → Option ℕ) (kind : Kind) (flags : PickFlags) (index : ℕ)
      (fs : Fileset a.Tree) (r : Picked a.Tree) : Type 0 where
    -- an entry in use, of the wanted state and not busy, is now busy
    picks :
        (fs' : Fileset a.Tree) (e : ℕ)
        → r ≡ picked fs' e
        → e < (group fs kind).created
        → wanted kind flags ((group fs kind).entries e) ≡ true
        → ((group fs kind).entries e).busy ≡ false
        → Grabbed (group fs kind) (group fs' kind) e
        → GroupInv a (group fs' kind)
        → SameElsewhere kind fs fs'
        → PickOutcome randomno64 kind flags index fs r
    -- none exists: nothing but rotors has changed
    nothing :
        (fs' : Fileset a.Tree)
        → r ≡ empty fs'
        → ((group fs kind).listed ≡ false)
          ⊎ ((k : ℕ)
              → k < (group fs kind).created
              → wanted kind flags ((group fs kind).entries k) ≡ true
              → ((group fs kind).entries k).busy ≡ true)
        → SameButRotors (group fs kind) (group fs' kind)
        → SameElsewhere kind fs fs'
        → PickOutcome randomno64 kind flags index fs r
    -- every entry of the kind is busy: the caller waits for one
    blocks :
        r ≡ waits
        → ((k : ℕ) → k < (group fs kind).created → ((group fs kind).entries k).busy ≡ true)
        → PickOutcome randomno64 kind flags index fs r
    -- the random number failed
    locked :
        r ≡ null_locked
        → flags.unique ≡ true
        → index ≡ 0
        → randomno64 (max_entries kind (group fs kind)) ≡ none
        → PickOutcome randomno64 kind flags index fs r

  module _ (laws : AvlLaws a) (randomno64 : ℕ → Option ℕ) (kind : Kind) (flags : PickFlags) where
    member_facts :
        (g : Group a.Tree) (k : ℕ)
        → GroupInv a g
        → mem a (pick_tree a kind flags g) k ≡ true
        → (k < g.created) × (wanted kind flags (g.entries k) ≡ true)
    member_facts g k inv m =
        let both = sym (pick_tree-wanted a kind flags g k inv) ∙ m in
        (ltb→lt k g.created (and_left _ _ both), and_right _ _ both)

    wanted_member :
        (g : Group a.Tree) (k : ℕ)
        → GroupInv a g
        → k < g.created
        → wanted kind flags (g.entries k) ≡ true
        → mem a (pick_tree a kind flags g) k ≡ true
    wanted_member g k inv lt w =
        pick_tree-wanted a kind flags g k inv ∙ rw (lt→ltb k g.created lt, w)

    module _ (index : ℕ) (fs : Fileset a.Tree) (inv : GroupInv a (group fs kind)) where
      abbrev Ended : Picked a.Tree → Type 0
      Ended = PickOutcome randomno64 kind flags index fs

      abbrev g : Group a.Tree
      g = group fs kind

      tree_same :
          (g' : Group a.Tree)
          → SameButRotors g g'
          → pick_tree a kind flags g' ≡ pick_tree a kind flags g
      tree_same g' same = pick_tree-SameButRotors a kind flags g g' same

      scanned :
          (g' : Group a.Tree) (e : ℕ)
          → (same : SameButRotors g g') → (m : mem a (pick_tree a kind flags g') e ≡ true)
          → Ends a laws
              (pick_tree a kind flags g')
              g'.entries
              e
              m
              (pick_scan a (2 * g'.created + 1) (pick_tree a kind flags g') g'.entries e e)
      scanned g' e same m =
          pick_scan-Ends a laws (pick_tree a kind flags g') g'.entries e m g'.created
            (2 * g'.created + 1)
            (λ k mk. rw same.created (member_facts g k inv (rw (tree_same g' same) at mk)).0)
            (omega arith)

      Ended-set_group :
          (g' : Group a.Tree) (e : ℕ)
          → SameButRotors g g'
          → mem a (pick_tree a kind flags g) e ≡ true
          → Ended (pick_from a randomno64 kind flags fs (start_at g' e))
      unfolding pick_from
      Ended-set_group g' e same m = elim (scanned g' e same (rw (tree_same g' same) m)) [
        | inl (n, stopped, mn, idle) ↦
            let facts = member_facts g n inv (rw (tree_same g' same) at mn) in
            let idle' : (g.entries n).busy ≡ false = rw same.entries at idle in
            let placed = group-set_group fs kind (grab g' n) in
            let grabbed : Grabbed g (group (set_group fs kind (grab g' n)) kind) n =
              rw placed.0 (grab-Grabbed g g' n same) in
            picks (set_group fs kind (grab g' n)) n (rw (stopped, pick_from)) facts.0 facts.1 idle'
              grabbed (Grabbed-GroupInv a g _ n grabbed facts.0 idle' inv) placed.1
        | inr (stopped, busy) ↦
            let placed = group-set_group fs kind g' in
            nothing (set_group fs kind g') (rw (stopped, pick_from))
              (inr λ k lt w.
                rw same.entries at (busy k (rw (tree_same g' same) (wanted_member g k inv lt w))))
              (rw placed.0 same) placed.1
      ]

      Ended-choice :
          (r : Choice a.Tree)
          → Chosen a laws randomno64 kind flags index g r
          → Ended (pick_from a randomno64 kind flags fs r)
      unfolding pick_from
      Ended-choice r (inl (g', e, chosen, m, same)) = rw chosen (Ended-set_group g' e same m)
      Ended-choice r (inr (refused, unique, zero_index, failed)) =
          locked (rw (refused, pick_from)) unique zero_index failed

      no_member :
          ((k : ℕ) → mem a (pick_tree a kind flags g) k ≡ false)
          → (k : ℕ) → k < g.created
          → wanted kind flags (g.entries k) ≡ true
          → (g.entries k).busy ≡ true
      no_member none_there k lt w =
          let clash : true ≡ false = sym (wanted_member g k inv lt w) ∙ none_there k in cc

      Ended-idle :
          (tid : ℕ)
          → Ended (
              if a.avl_is_empty (pick_tree a kind flags g)
              then empty fs
              else pick_from a randomno64 kind flags fs
                  (choose a randomno64 kind flags tid index g))
      Ended-idle tid = elim (laws.is_empty_lem (pick_tree a kind flags g)) [
        | inl (is_empty, none_there) ↦ rw is_empty (
            nothing fs refl (inr (no_member none_there)) (same_group a laws randomno64 g)
              (λ other ne. refl))
        | inr (has_some, member, m) ↦
            rw has_some
              (Ended-choice _ (choose-Chosen a laws randomno64 kind flags tid index member g m))
      ]

      -- On a well-formed group fileset_pick ends in one of four ways. It makes busy one entry in use that is in the wanted
      -- state and was not busy, counts one idle entry less and keeps the trees sorted by state; or
      -- it returns NULL because there is no list or every wanted entry is busy, and changes rotors
      -- at most; or it blocks, every entry of the kind being busy; or it returns NULL with the lock
      -- held, after a failed random number. It never follows a NULL entry, and its search ends.
      pub fileset_pick_outcome :
          (tid : ℕ)
          → PickOutcome randomno64 kind flags index fs
              (fileset_pick a randomno64 fs kind flags tid index)
      unfolding fileset_pick
      fileset_pick_outcome tid =
          if_elim Ended g.listed
            (λ _.
              if_elim Ended (is_zero g.idle)
                (λ z. blocks refl (busy_of_idle-zero g.created g.entries (none_idle z)))
                (λ _. Ended-idle tid))
            (λ unlisted.
              nothing fs refl (inl unlisted) (same_group a laws randomno64 g) (λ other ne. refl))
        where
          none_idle : is_zero g.idle ≡ true → idle_below g.created g.entries ≡ 0
          none_idle z = ground (arith, inv.idle_counted)
