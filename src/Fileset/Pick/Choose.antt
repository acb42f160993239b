-- ===== src/Fileset/Pick/Choose.antt =====
-- The choice of the first candidate in fileset_pick.
use filebench_pre_fsl.Base.{
  ℕ, ◌≡◌, ◌<◌, refl, ap, ◌⊎◌, inl, inr, Bool, true, false, not, ◌&&◌, Option, none, ltb, ◌==◌,
  if◌then◌else◌, Bool-cases, Option-cases, if_elim, ==_iff,
}
use filebench_pre_fsl.Fileset.Avl.{Avl, AvlLaws, mem}
use filebench_pre_fsl.Fileset.State.{Kind, dir, Entry, Group, GroupInv}
use filebench_pre_fsl.Fileset.Pick.{
  PickFlags, to_uint, fileset_find_entry, pick_tree, max_entries, uses_nerotor, rotor, set_rotor,
  Choice, start_at, returns_locked, entry_or_none, choose_unique, choose_rotated, choose,
}
use filebench_pre_fsl.Fileset.Pick.Find.{FoundEntry, fileset_find_entry-FoundEntry}

-- The state that a pick asks for.
abbrev pub wanted : Kind → PickFlags → Entry → Bool
wanted dir flags e = not e.free && e.exists
wanted _ flags e =
    if flags.unique
    then e.free
    else if flags.noexist
    then not e.free && not e.exists
    else not e.free && e.exists

-- There is no list, or all entries in use of the wanted state are busy.
abbrev pub NoneIdle : {T : Type 0} → Kind → PickFlags → Group T → Type 0
NoneIdle kind flags g =
    (g.listed ≡ false)
    ⊎ ((k : ℕ) → k < g.created → wanted kind flags (g.entries k) ≡ true → (g.entries k).busy ≡ true)

-- All entries in use are busy.
abbrev pub AllBusy : {T : Type 0} → Group T → Type 0
AllBusy g = (k : ℕ) → k < g.created → (g.entries k).busy ≡ true

-- The flags of a pick that is not for a unique entry.
abbrev pub plain_flags : (noexist : Bool) → PickFlags
plain_flags noexist = record { unique = false; noexist = noexist; by_index = false }

-- Two groups that differ in their rotors alone.
pub record SameButRotors {T : Type 0} (g g' : Group T) : Type 0 where
  pub entries : g'.entries ≡ g.entries
  pub created : g'.created ≡ g.created
  pub idle : g'.idle ≡ g.idle
  pub free_tree : g'.free_tree ≡ g.free_tree
  pub exist_tree : g'.exist_tree ≡ g.exist_tree
  pub noex_tree : g'.noex_tree ≡ g.noex_tree

set_rotor-SameButRotors :
    {T : Type 0} (kind : Kind) (flags : PickFlags) (tid : ℕ) (g : Group T) (e : ℕ)
    → SameButRotors g (set_rotor kind flags tid g e)
unfolding set_rotor
set_rotor-SameButRotors kind flags tid g e = elim (Bool-cases (uses_nerotor kind flags)) [
  | inl h ↦ rw h (record {
    entries = refl;
    created = refl;
    idle = refl;
    free_tree = refl;
    exist_tree = refl;
    noex_tree = refl;
  })
  | inr h ↦ rw h (record {
    entries = refl;
    created = refl;
    idle = refl;
    free_tree = refl;
    exist_tree = refl;
    noex_tree = refl;
  })
]

module _ (a : Avl) where
  pub pick_tree-wanted :
      (kind : Kind) (flags : PickFlags) (g : Group a.Tree) (i : ℕ)
      → GroupInv a g
      → mem a (pick_tree a kind flags g) i ≡ (ltb i g.created && wanted kind flags (g.entries i))
  unfolding pick_tree
  pick_tree-wanted dir flags g i inv = inv.in_exist i
  pick_tree-wanted _ flags g i inv = elim (Bool-cases flags.unique) [
    | inl u ↦ rw u (inv.in_free i)
    | inr u ↦ elim (Bool-cases flags.noexist) [
      | inl n ↦ rw (u, n) (inv.in_noex i)
      | inr n ↦ rw (u, n) (inv.in_exist i)
    ]
  ]

  pub pick_tree-SameButRotors :
      (kind : Kind) (flags : PickFlags) (g g' : Group a.Tree)
      → SameButRotors g g'
      → pick_tree a kind flags g' ≡ pick_tree a kind flags g
  unfolding pick_tree
  pick_tree-SameButRotors dir flags g g' same = same.exist_tree
  pick_tree-SameButRotors _ flags g g' same = cc (same.free_tree, same.noex_tree, same.exist_tree)

  module _ (laws : AvlLaws a) (randomno64 : ℕ → Option ℕ) where
    abbrev pub Chosen : Kind → PickFlags → ℕ → Group a.Tree → Choice a.Tree → Type 0
    Chosen kind flags index g r =
        ((g' : Group a.Tree) × (e : ℕ) × (r ≡ start_at g' e)
          × (mem a (pick_tree a kind flags g) e ≡ true)
          × SameButRotors g g')
        ⊎ ((r ≡ returns_locked)
            × (flags.unique ≡ true)
            × (index ≡ 0)
            × (randomno64 (max_entries kind g) ≡ none))

    pub same_group : (g : Group a.Tree) → SameButRotors g g
    same_group g = record {
      entries = refl;
      created = refl;
      idle = refl;
      free_tree = refl;
      exist_tree = refl;
      noex_tree = refl;
    }

    module _ (kind : Kind) (flags : PickFlags) (tid index member : ℕ) (g : Group a.Tree) where
      abbrev the_tree : a.Tree
      the_tree = pick_tree a kind flags g

      module _ (m : mem a the_tree member ≡ true) where
        lookup : (i : ℕ) → FoundEntry a laws the_tree i (fileset_find_entry a the_tree i)
        lookup i = fileset_find_entry-FoundEntry a laws the_tree i member m

        entry_or_none-Chosen :
            (i : ℕ) → Chosen kind flags index g (entry_or_none g (fileset_find_entry a the_tree i))
        entry_or_none-Chosen i =
            let (e, at, me, _) = lookup i in inl (g, e, ap (entry_or_none g) at, me, same_group g)

        choose_unique-Chosen :
            flags.unique ≡ true
            → Chosen kind flags index g (choose_unique a randomno64 kind index g the_tree)
        unfolding choose_unique
        choose_unique-Chosen u =
            if_elim (Chosen kind flags index g) (index == 0)
              (λ z. elim (Option-cases (randomno64 (max_entries kind g))) [
                | inl failed ↦ inr (rw failed, u, (==_iff index 0).0 z, failed)
                | inr (r, drawn) ↦
                    let (e, at, me, _) = lookup (to_uint r) in
                    inl (g, e, rw drawn (ap (entry_or_none g) at), me, same_group g)
              ])
              (λ _. entry_or_none-Chosen (to_uint index))

        choose_rotated-Chosen :
            Chosen kind flags index g (choose_rotated a randomno64 kind flags tid g the_tree)
        unfolding choose_rotated
        choose_rotated-Chosen =
            let (e, at, me, _) = lookup (rotor kind flags tid g) in
            inl (
              set_rotor kind flags tid g e,
              e,
              rw (at, choose_rotated),
              me,
              set_rotor-SameButRotors kind flags tid g e,
            )

        -- From a tree with a member the choice is one of its members, unless a random number was
        -- wanted and failed.
        pub choose-Chosen : Chosen kind flags index g (choose a randomno64 kind flags tid index g)
        unfolding choose
        choose-Chosen = if_elim (Chosen kind flags index g) flags.unique choose_unique-Chosen (λ _.
            if_elim (Chosen kind flags index g) flags.by_index
              (λ _. entry_or_none-Chosen (to_uint index)) (λ _. choose_rotated-Chosen))
