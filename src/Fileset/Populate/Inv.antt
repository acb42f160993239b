-- ===== src/Fileset/Populate/Inv.antt =====
-- A populated group is well formed.
use filebench_pre_fsl.Base.{
  ℕ, zero, suc, ◌≡◌, refl, sym, ap, ◌∙◌, Bool, true, false, ◌&&◌, arith, ltb, ◌==◌, if◌then◌else◌,
}
use filebench_pre_fsl.Base.Int.{ℤ, pos, ◌+ℤ◌, pos_part}
use filebench_pre_fsl.Fileset.Avl.{Avl, AvlLaws, mem}
use filebench_pre_fsl.Fileset.Idle.{idle_below_fresh, incr-pos}
use filebench_pre_fsl.Fileset.State.{Kind, file, dir, leafdir, Group, idle_below, GroupInv}
use filebench_pre_fsl.Fileset.Populate.{fresh, insert_entry, populate_entry, populate}

module _ (a : Avl) where
  -- So many entries, all of them idle.
  pub record Fresh (g : Group a.Tree) (n : ℕ) : Type 0 where
    pub created : g.created ≡ n
    pub idle : g.idle ≡ pos n
    pub inv : GroupInv a g

  module _ (laws : AvlLaws a) where
    -- The membership of a tree and the flags that it stands for, after an entry is added.
    add_in :
        (t : a.Tree) (n i : ℕ) (p q : Bool)
        → mem a t n ≡ false
        → mem a t i ≡ (ltb i n && p)
        → q ≡ (if n == i then true else p)
        → mem a (a.avl_add t n) i ≡ (ltb i (suc n) && q)
    add_in t n i p q absent was now = ground (arith, laws.mem-add t n i absent)

    absent_in : (t : a.Tree) (n : ℕ) (p : Bool) → mem a t n ≡ (ltb n n && p) → mem a t n ≡ false
    absent_in t n p was = ground arith

    out_of :
        (t : a.Tree) (n i : ℕ) (p q : Bool)
        → mem a t i ≡ (ltb i n && p)
        → q ≡ (if n == i then false else p)
        → mem a t i ≡ (ltb i (suc n) && q)
    out_of t n i p q was now = ground arith

    module _ (g : Group a.Tree) (inv : GroupInv a g) (idle : ℤ) where
      abbrev counted : Group a.Tree
      counted = record g { idle = idle }

      abbrev n : ℕ
      n = g.created

      insert-GroupInv :
          (kind : Kind)
          → idle ≡ pos (suc (idle_below n g.entries))
          → GroupInv a (insert_entry a kind counted n)
      unfolding insert_entry
      insert-GroupInv file e = record {
        in_free = λ i.
            add_in g.free_tree n i _ _ (absent_in g.free_tree n _ (inv.in_free n)) (inv.in_free i)
              (ground arith);
        in_exist = λ i. out_of g.exist_tree n i _ _ (inv.in_exist i) (ground arith);
        in_noex = λ i. out_of g.noex_tree n i _ _ (inv.in_noex i) (ground arith);
        idle_counted = e ∙ ap pos (sym (idle_below_fresh n g.entries (fresh file) refl));
      }
      insert-GroupInv dir e = record {
        in_free = λ i. out_of g.free_tree n i _ _ (inv.in_free i) (ground arith);
        in_exist = λ i.
            add_in g.exist_tree n i _ _ (absent_in g.exist_tree n _ (inv.in_exist n))
              (inv.in_exist i) (ground arith);
        in_noex = λ i. out_of g.noex_tree n i _ _ (inv.in_noex i) (ground arith);
        idle_counted = e ∙ ap pos (sym (idle_below_fresh n g.entries (fresh dir) refl));
      }
      insert-GroupInv leafdir e = record {
        in_free = λ i.
            add_in g.free_tree n i _ _ (absent_in g.free_tree n _ (inv.in_free n)) (inv.in_free i)
              (ground arith);
        in_exist = λ i. out_of g.exist_tree n i _ _ (inv.in_exist i) (ground arith);
        in_noex = λ i. out_of g.noex_tree n i _ _ (inv.in_noex i) (ground arith);
        idle_counted = e ∙ ap pos (sym (idle_below_fresh n g.entries (fresh leafdir) refl));
      }

    populate_entry_group :
        (kind : Kind) (g : Group a.Tree)
        → (populate_entry a kind true true g).1
          ≡ insert_entry a kind (record g { idle = g.idle +ℤ pos 1 }) (pos_part g.idle)
    unfolding populate_entry
    populate_entry_group file g = refl
    populate_entry_group dir g = refl
    populate_entry_group leafdir g = refl

    insert_counts :
        (kind : Kind) (g : Group a.Tree) (i : ℕ)
        → ((insert_entry a kind g i).created ≡ suc g.created)
          × ((insert_entry a kind g i).idle ≡ g.idle)
    unfolding insert_entry
    insert_counts file g i = (refl, refl)
    insert_counts dir g i = (refl, refl)
    insert_counts leafdir g i = (refl, refl)

    populate_entry-Fresh :
        (kind : Kind) (g : Group a.Tree) (n : ℕ)
        → Fresh g n
        → Fresh (populate_entry a kind true true g).1 (suc n)
    populate_entry-Fresh kind g n f =
        let index : pos_part g.idle ≡ g.created = ap pos_part f.idle ∙ sym f.created in
        let all_idle : idle_below g.created g.entries ≡ n =
          ap pos_part (sym f.inv.idle_counted ∙ f.idle) in
        let more : g.idle +ℤ pos 1 ≡ pos (suc n) = ap (λ k. k +ℤ pos 1) f.idle ∙ incr-pos n in
        let counts = insert_counts kind (record g { idle = g.idle +ℤ pos 1 }) g.created in
        let fresh_group : Fresh
            (insert_entry a kind (record g { idle = g.idle +ℤ pos 1 }) g.created) (suc n) =
          record {
            created = counts.0 ∙ ap suc f.created;
            idle = counts.1 ∙ more;
            inv =
                insert-GroupInv g f.inv (g.idle +ℤ pos 1) kind
                  (more ∙ ap (λ k. pos (suc k)) (sym all_idle));
          } in
        rw (populate_entry_group kind g, index) fresh_group

    -- Populating an empty group of any kind makes it well formed: after n entries, each with the
    -- next free index, n are in use, all of them idle, and the trees sort them by state.
    pub populate-Fresh :
        (kind : Kind) (g : Group a.Tree) (n : ℕ) → Fresh g 0 → Fresh (populate a kind n g) n
    populate-Fresh kind g zero f = f
    populate-Fresh kind g (suc n) f =
        populate_entry-Fresh kind (populate a kind n g) n (populate-Fresh kind g n f)
