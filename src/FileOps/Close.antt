-- ===== src/FileOps/Close.antt =====
-- flowoplib_closefile and the idle count.
use mathlib.Core.Path.{fun_ext}
use filebench_pre_fsl.Base.{
  ℕ, suc, ◌<◌, ◌≡◌, sym, ap, ◌∙◌, Bool, true, false, arith, if◌then◌else◌, update, some,
}
use filebench_pre_fsl.Base.Int.{ℤ, pos, negsuc, ◌+ℤ◌, is_zero, is_one}
use filebench_pre_fsl.Fileset.Avl.{Avl, mem}
use filebench_pre_fsl.Fileset.Idle.{idle_pos, idle_below_same, decr-suc, incr-pos}
use filebench_pre_fsl.Fileset.State.{file, Entry, Group, idle_below, GroupInv}
use filebench_pre_fsl.Fileset.Unbusy.{fileset_unbusy}
use filebench_pre_fsl.Fileset.Unbusy.Laws.{unbusy_group_busy}
use filebench_pre_fsl.FileOps.{
  ok, Flowop, World, returns, grab_file, close_entry, flowoplib_closefile,
}

module _ (a : Avl) where
  -- The idle count and the entry after a close.
  abbrev closed_idle : World a.Tree → ℕ → ℤ
  closed_idle w e =
      (if is_one (w.fs.files.entries e).open_cnt
        then w.fs.files.idle +ℤ negsuc 0
        else w.fs.files.idle)
      +ℤ pos 1

  abbrev closed_entry : World a.Tree → ℕ → Entry
  closed_entry w e = record (w.fs.files.entries e) {
    busy = false;
    thrd_waiting = false;
    open_cnt = (w.fs.files.entries e).open_cnt +ℤ negsuc 0;
  }

  record Closed (w w' : World a.Tree) (e : ℕ) : Type 0 where
    idle : w'.fs.files.idle ≡ closed_idle w e
    created : w'.fs.files.created ≡ w.fs.files.created
    entries : (k : ℕ) → w'.fs.files.entries k ≡ update w.fs.files.entries e (closed_entry w e) k
    free_tree : w'.fs.files.free_tree ≡ w.fs.files.free_tree
    exist_tree : w'.fs.files.exist_tree ≡ w.fs.files.exist_tree
    noex_tree : w'.fs.files.noex_tree ≡ w.fs.files.noex_tree

  abbrev grabbed : World a.Tree → ℕ → Group a.Tree
  grabbed w e = (grab_file (is_one (w.fs.files.entries e).open_cnt) w e).fs.files

  close_entry-Closed : (w : World a.Tree) (fd e : ℕ) → Closed w (close_entry a w fd e) e
  unfolding close_entry fileset_unbusy
  close_entry-Closed w fd e =
      let facts = unbusy_group_busy a file (grabbed w e) e false (negsuc 0) (ground arith) in
      record {
        idle = facts.0;
        created = facts.1;
        entries = λ k. facts.2 k ∙ ground arith;
        free_tree = facts.3;
        exist_tree = facts.4;
        noex_tree = facts.5;
      }

  idle_after :
      (w w' : World a.Tree) (e : ℕ)
      → Closed w w' e
      → e < w.fs.files.created
      → (w.fs.files.entries e).busy ≡ false
      → idle_below w'.fs.files.created w'.fs.files.entries
        ≡ idle_below w.fs.files.created w.fs.files.entries
  idle_after w w' e closed lt idle =
      rw (closed.created, fun_ext closed.entries)
        (idle_below_same w.fs.files.created w.fs.files.entries e (closed_entry w e) lt (sym idle))

  count_last :
      (n : ℕ) (b : Bool)
      → b ≡ true
      → (if b then pos (suc n) +ℤ negsuc 0 else pos (suc n)) +ℤ pos 1 ≡ pos (suc n)
  count_last n b h = rw (h, decr-suc n) (incr-pos n)

  count_shared :
      (n : ℕ) (idle : ℤ) (b : Bool)
      → b ≡ false
      → idle ≡ pos n
      → (if b then idle +ℤ negsuc 0 else idle) +ℤ pos 1 ≡ pos (suc n)
  count_shared n idle b h e = rw (h, e) (incr-pos n)

  sorted_after_close :
      (w w' : World a.Tree) (e : ℕ)
      → Closed w w' e
      → GroupInv a w.fs.files
      → w'.fs.files.idle ≡ pos (idle_below w'.fs.files.created w'.fs.files.entries)
      → GroupInv a w'.fs.files
  sorted_after_close w w' e closed inv counted = record {
    in_free = λ i.
        ap (λ t. mem a t i) closed.free_tree
        ∙ inv.in_free i
        ∙ ground (arith, closed.created, closed.entries i);
    in_exist = λ i.
        ap (λ t. mem a t i) closed.exist_tree
        ∙ inv.in_exist i
        ∙ ground (arith, closed.created, closed.entries i);
    in_noex = λ i.
        ap (λ t. mem a t i) closed.noex_tree
        ∙ inv.in_noex i
        ∙ ground (arith, closed.created, closed.entries i);
    idle_counted = counted;
  }

  closed_fd : (w : World a.Tree) (fd e : ℕ) → (close_entry a w fd e).thread.tf_fd fd ≡ pos 0
  unfolding close_entry
  closed_fd w fd e = ground arith

  module _ (w : World a.Tree) (op : Flowop) (e : ℕ) where
    -- The descriptor is open on an entry in use that is not busy.
    pub record Closable : Type 0 where
      pub is_open : is_zero (w.thread.tf_fd op.fdnumber) ≡ false
      pub holds : w.thread.tf_fse op.fdnumber ≡ some e
      pub in_use : e < w.fs.files.created
      pub idle : (w.fs.files.entries e).busy ≡ false

    closefile-ok :
        Closable → flowoplib_closefile a w op ≡ returns ok (close_entry a w op.fdnumber e)
    unfolding flowoplib_closefile
    closefile-ok c = rw (c.is_open, c.holds, flowoplib_closefile) (rw c.idle)

    -- In a well-formed fileset, closing the only descriptor that is open on an idle file succeeds and keeps the trees sorted
    -- by state and the idle count right; the descriptor is closed and nobody has the file open.
    pub closefile_last :
        Closable
        → GroupInv a w.fs.files
        → (w.fs.files.entries e).open_cnt ≡ pos 1
        → (w' : World a.Tree) × (flowoplib_closefile a w op ≡ returns ok w')
          × GroupInv a w'.fs.files
          × (w'.thread.tf_fd op.fdnumber ≡ pos 0)
          × ((w'.fs.files.entries e).open_cnt ≡ pos 0)
    closefile_last c inv one =
        let w' = close_entry a w op.fdnumber e in
        let closed = close_entry-Closed w op.fdnumber e in
        let some_idle = idle_pos w.fs.files.created w.fs.files.entries e c.in_use c.idle in
        (
          w',
          closefile-ok c,
          sorted_after_close w w' e closed inv (
              closed.idle
              ∙ rw (inv.idle_counted, some_idle.1) (count_last some_idle.0 _ (ap is_one one))
              ∙ ap pos (sym (idle_after w w' e closed c.in_use c.idle ∙ some_idle.1))),
          closed_fd w op.fdnumber e,
          ap (λ (x : Entry). x.open_cnt) (closed.entries e)
              ∙ ground arith
              ∙ ap (λ n. n +ℤ negsuc 0) one
              ∙ decr-suc 0,
        )

    -- In a well-formed fileset, closing one of several descriptors open on an idle file succeeds too, but counts the file
    -- idle a second time: the idle count is one more than the number of files that are not busy.
    closefile_shared :
        Closable
        → GroupInv a w.fs.files
        → is_one (w.fs.files.entries e).open_cnt ≡ false
        → (w' : World a.Tree) × (flowoplib_closefile a w op ≡ returns ok w')
          × (w'.fs.files.idle ≡ pos (suc (idle_below w'.fs.files.created w'.fs.files.entries)))
    closefile_shared c inv more =
        let w' = close_entry a w op.fdnumber e in
        let closed = close_entry-Closed w op.fdnumber e in
        (
          w',
          closefile-ok c,
          closed.idle
              ∙ count_shared _ w.fs.files.idle _ more inv.idle_counted
              ∙ ap (λ n. pos (suc n)) (sym (idle_after w w' e closed c.in_use c.idle)),
        )
