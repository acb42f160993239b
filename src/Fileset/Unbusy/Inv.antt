-- ===== src/Fileset/Unbusy/Inv.antt =====
-- fileset_unbusy keeps the trees sorted by state and the idle count right.
use filebench_pre_fsl.Base.{
  ℕ, ◌<◌, ◌≡◌, refl, sym, ap, ◌∙◌, ◌≢◌, Bool, true, false, not, ◌&&◌, arith, ltb, update, if_elim,
}
use filebench_pre_fsl.Base.Int.{ℤ, pos, ◌+ℤ◌}
use filebench_pre_fsl.Fileset.Avl.{Avl, AvlLaws, mem}
use filebench_pre_fsl.Fileset.Idle.{idle_below-update, incr-pos}
use filebench_pre_fsl.Fileset.State.{Kind, dir, Entry, Group, idle_below, GroupInv}
use filebench_pre_fsl.Fileset.Unbusy.{
  Wakeups, Trees, trees, move_trees, move_by_kind, flag_exist, update_exist, release,
}

module _ (a : Avl) (laws : AvlLaws a) where
  -- The trees hold the entries of `n` in use by their state.
  abbrev Sorted : ℕ → (ℕ → Entry) → Trees a.Tree → Type 0
  Sorted n entries t =
      (i : ℕ)
      → (mem a t.free_tree i ≡ (ltb i n && (entries i).free))
        × (mem a t.exist_tree i ≡ (ltb i n && (not (entries i).free && (entries i).exists)))
        × (mem a t.noex_tree i ≡ (ltb i n && (not (entries i).free && not (entries i).exists)))

  Sorted-move_trees :
      (n : ℕ) (entries : ℕ → Entry) (t : Trees a.Tree) (new_exist : Bool) (i : ℕ)
      → i < n
      → Sorted n entries t
      → Sorted n
          (update entries i (flag_exist a new_exist (entries i)))
          (move_trees a new_exist (entries i) i t)
  unfolding move_trees flag_exist
  Sorted-move_trees n entries t true i lt sorted k = ground (
    arith,
    sorted k,
    sorted i,
    laws.mem-remove t.free_tree i k,
    laws.mem-remove t.noex_tree i k,
    laws.mem-add t.exist_tree i k,
  )
  Sorted-move_trees n entries t false i lt sorted k = ground (
    arith,
    sorted k,
    sorted i,
    laws.mem-remove t.free_tree i k,
    laws.mem-remove t.exist_tree i k,
    laws.mem-add t.noex_tree i k,
  )

  GroupInv-Sorted : (g : Group a.Tree) → GroupInv a g → Sorted g.created g.entries (trees g)
  GroupInv-Sorted g inv i = (inv.in_free i, inv.in_exist i, inv.in_noex i)

  Sorted-GroupInv :
      (g : Group a.Tree)
      → Sorted g.created g.entries (trees g)
      → g.idle ≡ pos (idle_below g.created g.entries)
      → GroupInv a g
  Sorted-GroupInv g sorted counted = record {
    in_free = λ i. (sorted i).0;
    in_exist = λ i. (sorted i).1;
    in_noex = λ i. (sorted i).2;
    idle_counted = counted;
  }

  -- An entry that stays as busy as it was leaves the count alone.
  idle_below_same :
      (n : ℕ) (entries : ℕ → Entry) (i : ℕ) (x : Entry)
      → i < n
      → x.busy ≡ (entries i).busy
      → idle_below n (update entries i x) ≡ idle_below n entries
  idle_below_same n entries i x lt same = ground (arith, idle_below-update n entries i x lt)

  flag_exist-busy : (new_exist : Bool) (e : Entry) → (flag_exist a new_exist e).busy ≡ e.busy
  unfolding flag_exist
  flag_exist-busy true e = ground arith
  flag_exist-busy false e = ground arith

  Sorted-move_by_kind :
      (kind : Kind) (n : ℕ) (entries : ℕ → Entry) (t : Trees a.Tree) (new_exist : Bool) (i : ℕ)
      → kind ≢ dir
      → i < n
      → Sorted n entries t
      → Sorted n
          (update entries i (flag_exist a new_exist (entries i)))
          (move_by_kind a kind new_exist (entries i) i t)
  unfolding move_by_kind
  Sorted-move_by_kind dir n entries t new_exist i ne lt sorted = absurd (ne refl)
  Sorted-move_by_kind _ n entries t new_exist i ne lt sorted =
      Sorted-move_trees n entries t new_exist i lt sorted

  pub update_exist-GroupInv :
      (kind : Kind) (new_exist : Bool) (g : Group a.Tree) (i : ℕ)
      → kind ≢ dir
      → i < g.created
      → GroupInv a g
      → GroupInv a (update_exist a kind new_exist g i)
  unfolding update_exist
  update_exist-GroupInv kind new_exist g i ne lt inv =
      Sorted-GroupInv _
        (Sorted-move_by_kind kind g.created g.entries (trees g) new_exist i ne lt
          (GroupInv-Sorted g inv))
        (inv.idle_counted
          ∙ ap pos (
              sym (
                idle_below_same g.created g.entries i _ lt
                  (flag_exist-busy new_exist (g.entries i)))))

  Sorted-same_flags :
      (n : ℕ) (entries : ℕ → Entry) (t : Trees a.Tree) (i : ℕ) (x : Entry)
      → x.free ≡ (entries i).free
      → x.exists ≡ (entries i).exists
      → Sorted n entries t
      → Sorted n (update entries i x) t
  Sorted-same_flags n entries t i x f e sorted k = ground (arith, sorted k)

  pub release-GroupInv :
      (g : Group a.Tree) (i : ℕ) (open_cnt_incr : ℤ)
      → i < g.created
      → GroupInv a g
      → GroupInv a (release a g i open_cnt_incr).0
  unfolding release
  release-GroupInv g i open_cnt_incr lt inv =
      if_elim (λ (r : Group a.Tree × Wakeups). GroupInv a r.0) (g.entries i).busy
        (λ busy. Sorted-GroupInv _ (kept _ refl refl) (
          rw inv.idle_counted (
            incr-pos _
            ∙ ap pos
                (ground (arith, idle_below-update g.created g.entries i (now false false) lt)))))
        (λ idle. Sorted-GroupInv _ (kept _ refl refl) (
          inv.idle_counted
          ∙ ap pos (
              sym (
                idle_below_same g.created g.entries i
                  (now (g.entries i).busy (g.entries i).thrd_waiting) lt refl))))
    where
      now : Bool → Bool → Entry
      now b w = record (g.entries i) {
        busy = b;
        thrd_waiting = w;
        open_cnt = (g.entries i).open_cnt +ℤ open_cnt_incr;
      }

      kept :
          (x : Entry)
          → x.free ≡ (g.entries i).free
          → x.exists ≡ (g.entries i).exists
          → Sorted g.created (update g.entries i x) (trees g)
      kept x f e = Sorted-same_flags g.created g.entries (trees g) i x f e (GroupInv-Sorted g inv)
