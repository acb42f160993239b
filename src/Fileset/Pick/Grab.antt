-- ===== src/Fileset/Pick/Grab.antt =====
-- The group after a successful pick.
use filebench_pre_fsl.Base.{ℕ, suc, ◌<◌, ◌≡◌, sym, ap, ◌∙◌, true, false, ◌&&◌, arith, ltb, update}
use filebench_pre_fsl.Base.Int.{pos, negsuc, ◌+ℤ◌}
use filebench_pre_fsl.Fileset.Avl.{Avl}
use filebench_pre_fsl.Fileset.Idle.{idle_below-update, decr-suc}
use filebench_pre_fsl.Fileset.State.{Entry, Group, idle_below, GroupInv}
use filebench_pre_fsl.Fileset.Pick.{grab}
use filebench_pre_fsl.Fileset.Pick.Choose.{SameButRotors}

-- The group after a pick of entry `e`: the entry is busy, one entry fewer is idle, and besides the
-- rotors nothing else has changed.
pub record Grabbed {T : Type 0} (g g' : Group T) (e : ℕ) : Type 0 where
  pub entries : g'.entries ≡ update g.entries e (record (g.entries e) { busy = true })
  pub created : g'.created ≡ g.created
  pub idle : g'.idle ≡ g.idle +ℤ negsuc 0
  pub free_tree : g'.free_tree ≡ g.free_tree
  pub exist_tree : g'.exist_tree ≡ g.exist_tree
  pub noex_tree : g'.noex_tree ≡ g.noex_tree

pub grab-Grabbed :
    {T : Type 0} (g g' : Group T) (e : ℕ) → SameButRotors g g' → Grabbed g (grab g' e) e
unfolding grab
grab-Grabbed g g' e same = record {
  entries = ap (λ (f : ℕ → Entry). update f e (record (f e) { busy = true })) same.entries;
  created = same.created;
  idle = ap (λ n. n +ℤ negsuc 0) same.idle;
  free_tree = same.free_tree;
  exist_tree = same.exist_tree;
  noex_tree = same.noex_tree;
}

module _ (a : Avl) where
  pub Grabbed-GroupInv :
      (g g' : Group a.Tree) (e : ℕ)
      → Grabbed g g' e
      → e < g.created
      → (g.entries e).busy ≡ false
      → GroupInv a g
      → GroupInv a g'
  Grabbed-GroupInv g g' e grabbed lt idle inv = record {
    in_free = λ i.
        rw (grabbed.free_tree, grabbed.created, grabbed.entries)
          (inv.in_free i ∙ ap (λ b. ltb i g.created && b) (sym (kept i).0));
    in_exist = λ i.
        rw (grabbed.exist_tree, grabbed.created, grabbed.entries)
          (inv.in_exist i ∙ ap (λ b. ltb i g.created && b) (cc ((kept i).0, (kept i).1)));
    in_noex = λ i.
        rw (grabbed.noex_tree, grabbed.created, grabbed.entries)
          (inv.in_noex i ∙ ap (λ b. ltb i g.created && b) (cc ((kept i).0, (kept i).1)));
    idle_counted = rw (grabbed.idle, inv.idle_counted, grabbed.created, grabbed.entries) count;
  }
    where
      busy_now : Entry
      busy_now = record (g.entries e) { busy = true }

      kept :
          (i : ℕ)
          → ((update g.entries e busy_now i).free ≡ (g.entries i).free)
            × ((update g.entries e busy_now i).exists ≡ (g.entries i).exists)
      kept i = (ground arith, ground arith)

      fewer :
          idle_below g.created g.entries ≡ suc (idle_below g.created (update g.entries e busy_now))
      fewer = ground (arith, idle_below-update g.created g.entries e busy_now lt)

      count :
          pos (idle_below g.created g.entries) +ℤ negsuc 0
          ≡ pos (idle_below g.created (update g.entries e busy_now))
      count = rw fewer (decr-suc _)
