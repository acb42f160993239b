-- ===== src/Fileset/Unbusy/Laws.antt =====
-- What fileset_unbusy does, on every path.
use filebench_pre_fsl.Base.{
  ℕ, ◌<◌, ◌≡◌, refl, ap, ◌∙◌, ◌≢◌, Bool, true, false, not, ◌&&◌, arith, update, if_elim,
}
use filebench_pre_fsl.Base.Int.{ℤ, pos, ◌+ℤ◌, is_one}
use filebench_pre_fsl.Fileset.Avl.{Avl, AvlLaws}
use filebench_pre_fsl.Fileset.State.{
  Kind, dir, Entry, Group, Fileset, group, GroupInv, SameElsewhere, group-set_group,
}
use filebench_pre_fsl.Fileset.Unbusy.{
  Wakeups, flag_exist, update_exist, release, unbusy_group, fileset_unbusy,
}
use filebench_pre_fsl.Fileset.Unbusy.Inv.{update_exist-GroupInv, release-GroupInv}

-- The entry after `update_exist`: no longer free, and existing or not as asked.
abbrev pub flagged : Bool → Bool → Entry → Entry
flagged true new_exist e = record e { free = false; exists = new_exist }
flagged false new_exist e = e

-- The entry after the release.
abbrev pub released : Entry → ℤ → Entry
released e open_cnt_incr = record e {
  open_cnt = e.open_cnt +ℤ open_cnt_incr;
  busy = false;
  thrd_waiting = not e.busy && e.thrd_waiting;
}

-- The group's entry `i` alone has changed, to `x`.
abbrev pub OnlyEntry : {T : Type 0} → Group T → Group T → ℕ → Entry → Type 0
OnlyEntry g g' i x = (k : ℕ) → g'.entries k ≡ update g.entries i x k

module _ (a : Avl) where
  flag_exist-flagged :
      (new_exist : Bool) (e : Entry) → flag_exist a new_exist e ≡ flagged true new_exist e
  unfolding flag_exist
  flag_exist-flagged true e = ground arith
  flag_exist-flagged false e = ground arith

  unbusy_group-GroupInv :
      (laws : AvlLaws a) (kind : Kind) (g : Group a.Tree) (i : ℕ) (updates new_exist : Bool)
      (open_cnt_incr : ℤ)
      → kind ≢ dir
      → i < g.created
      → GroupInv a g
      → GroupInv a (unbusy_group a kind g i updates new_exist open_cnt_incr).0
  unfolding unbusy_group update_exist
  unbusy_group-GroupInv laws kind g i true new_exist open_cnt_incr ne lt inv =
      release-GroupInv a laws _ i open_cnt_incr lt
        (update_exist-GroupInv a laws kind new_exist g i ne lt inv)
  unbusy_group-GroupInv laws kind g i false new_exist open_cnt_incr ne lt inv =
      release-GroupInv a laws g i open_cnt_incr lt inv

  release_entry :
      (g : Group a.Tree) (i : ℕ) (open_cnt_incr : ℤ)
      → OnlyEntry g (release a g i open_cnt_incr).0 i (released (g.entries i) open_cnt_incr)
  unfolding release
  release_entry g i open_cnt_incr k =
      if_elim
        (λ (r : Group a.Tree × Wakeups).
          r.0.entries k ≡ update g.entries i (released (g.entries i) open_cnt_incr) k)
        (g.entries i).busy (λ busy. ground arith) (λ idle. ground arith)

  -- Unbusying a busy entry without updating its existence counts one more idle.
  pub unbusy_group_busy :
      (kind : Kind) (g : Group a.Tree) (i : ℕ) (new_exist : Bool) (open_cnt_incr : ℤ)
      → (g.entries i).busy ≡ true
      → let g' = (unbusy_group a kind g i false new_exist open_cnt_incr).0 in
        (g'.idle ≡ g.idle +ℤ pos 1)
        × (g'.created ≡ g.created)
        × OnlyEntry g g' i (released (g.entries i) open_cnt_incr)
        × (g'.free_tree ≡ g.free_tree)
        × (g'.exist_tree ≡ g.exist_tree)
        × (g'.noex_tree ≡ g.noex_tree)
  unfolding unbusy_group release
  unbusy_group_busy kind g i new_exist open_cnt_incr busy = (
    rw busy refl,
    rw busy refl,
    release_entry g i open_cnt_incr,
    rw busy refl,
    rw busy refl,
    rw busy refl,
  )

  release_wakes :
      (g : Group a.Tree) (i : ℕ) (open_cnt_incr : ℤ)
      → ((release a g i open_cnt_incr).1.thrd_wait
          ≡ ((g.entries i).busy && (g.entries i).thrd_waiting))
        × ((release a g i open_cnt_incr).1.idle ≡ ((g.entries i).busy && is_one (g.idle +ℤ pos 1)))
  unfolding release
  release_wakes g i open_cnt_incr =
      if_elim
        (λ (r : Group a.Tree × Wakeups).
          (r.1.thrd_wait ≡ ((g.entries i).busy && (g.entries i).thrd_waiting))
          × (r.1.idle ≡ ((g.entries i).busy && is_one (g.idle +ℤ pos 1))))
        (g.entries i).busy (λ busy. rw busy (refl, refl)) (λ idle. rw idle (refl, refl))

  update_exist_entry :
      (kind : Kind) (g : Group a.Tree) (i : ℕ) (new_exist : Bool)
      → (update_exist a kind new_exist g i).entries
        ≡ update g.entries i (flagged true new_exist (g.entries i))
  unfolding update_exist
  update_exist_entry kind g i new_exist =
      ap (update g.entries i) (flag_exist-flagged new_exist (g.entries i))

  update_exist_idle :
      (kind : Kind) (g : Group a.Tree) (i : ℕ) (new_exist : Bool)
      → (update_exist a kind new_exist g i).idle ≡ g.idle
  unfolding update_exist
  update_exist_idle kind g i new_exist = refl

  update_self : (entries : ℕ → Entry) (i : ℕ) (x : Entry) → update entries i x i ≡ x
  update_self entries i x = ground arith

  pub update-update :
      (entries : ℕ → Entry) (i : ℕ) (x y : Entry) (k : ℕ)
      → update (update entries i x) i y k ≡ update entries i y k
  update-update entries i x y k = ground arith

  unbusy_group_outcome :
      (kind : Kind) (g : Group a.Tree) (i : ℕ) (updates new_exist : Bool) (open_cnt_incr : ℤ)
      → OnlyEntry g
          (unbusy_group a kind g i updates new_exist open_cnt_incr).0
          i
          (released (flagged updates new_exist (g.entries i)) open_cnt_incr)
        × ((unbusy_group a kind g i updates new_exist open_cnt_incr).1.thrd_wait
            ≡ ((g.entries i).busy && (g.entries i).thrd_waiting))
        × ((unbusy_group a kind g i updates new_exist open_cnt_incr).1.idle
            ≡ ((g.entries i).busy && is_one (g.idle +ℤ pos 1)))
  unfolding unbusy_group
  unbusy_group_outcome kind g i false new_exist open_cnt_incr = (
    release_entry g i open_cnt_incr,
    (release_wakes g i open_cnt_incr).0,
    (release_wakes g i open_cnt_incr).1,
  )
  unbusy_group_outcome kind g i true new_exist open_cnt_incr =
      let g' = update_exist a kind new_exist g i in
      let after = update_exist_entry kind g i new_exist in
      let self : g'.entries i ≡ flagged true new_exist (g.entries i) =
        ap (λ (f : ℕ → Entry). f i) after ∙ update_self g.entries i _ in
      let now = released (flagged true new_exist (g.entries i)) open_cnt_incr in
      let wakes = release_wakes g' i open_cnt_incr in
      (
        λ k.
            release_entry g' i open_cnt_incr k
            ∙ ap (λ x. update g'.entries i (released x open_cnt_incr) k) self
            ∙ ap (λ (f : ℕ → Entry). update f i now k) after
            ∙ update-update g.entries i (flagged true new_exist (g.entries i)) now k,
        wakes.0 ∙ ap (λ (x : Entry). x.busy && x.thrd_waiting) self,
        wakes.1
            ∙ ap (λ n. (g'.entries i).busy && is_one (n +ℤ pos 1))
                (update_exist_idle kind g i new_exist)
            ∙ ap (λ (x : Entry). x.busy && is_one (g.idle +ℤ pos 1)) self,
      )

  module _ (fs : Fileset a.Tree) (kind : Kind) (i : ℕ) (updates new_exist : Bool) (incr : ℤ) where
    abbrev the_result : Fileset a.Tree × Wakeups
    the_result = fileset_unbusy a fs kind i updates new_exist incr

    placed :
        group the_result.0 kind ≡ (unbusy_group a kind (group fs kind) i updates new_exist incr).0
    unfolding fileset_unbusy
    placed = (group-set_group fs kind _).0

    -- Unbusying an entry in use, of a file or a leaf directory, keeps the trees sorted by state and
    -- the idle count right, whether its existence is updated or not.
    pub fileset_unbusy-GroupInv :
        AvlLaws a
        → kind ≢ dir
        → i < (group fs kind).created
        → GroupInv a (group fs kind)
        → GroupInv a (group the_result.0 kind)
    fileset_unbusy-GroupInv laws ne lt inv =
        rw placed
          (unbusy_group-GroupInv laws kind (group fs kind) i updates new_exist incr ne lt inv)

    -- Exactly one entry changes, and no other kind's group: its open count grows by the increment,
    -- it is no longer busy, and if its existence is updated it is no longer free and exists as
    -- asked. Waiters on the entry are woken if it was busy and waited for; a waiter for any idle
    -- entry is woken if the entry was busy and is now the only idle one counted.
    pub fileset_unbusy_outcome :
        OnlyEntry
          (group fs kind)
          (group the_result.0 kind)
          i
          (released (flagged updates new_exist ((group fs kind).entries i)) incr)
        × SameElsewhere kind fs the_result.0
        × (the_result.1.thrd_wait
            ≡ (((group fs kind).entries i).busy && ((group fs kind).entries i).thrd_waiting))
        × (the_result.1.idle
            ≡ (((group fs kind).entries i).busy && is_one ((group fs kind).idle +ℤ pos 1)))
    unfolding fileset_unbusy
    fileset_unbusy_outcome =
        let outcome = unbusy_group_outcome kind (group fs kind) i updates new_exist incr in
        (
          λ k. ap (λ (g : Group a.Tree). g.entries k) placed ∙ outcome.0 k,
          (group-set_group fs kind _).1,
          outcome.1,
          outcome.2,
        )
