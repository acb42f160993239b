-- ===== src/Fileset/Populate.antt =====
-- filebench/fileset.c: fileset_populate_file, fileset_populate_leafdir, the entry that
-- fileset_populate_subdir makes for itself, and fileset_insfilelist and its two kin. Names, sizes and
-- the shape of the directory tree are left out.
pub mod Inv
use filebench_pre_fsl.Base.{ℕ, zero, suc, Bool, true, false, if◌then◌else◌, update}
use filebench_pre_fsl.Base.Int.{ℤ, pos, ◌+ℤ◌, pos_part}
use filebench_pre_fsl.Fileset.Avl.{Avl}
use filebench_pre_fsl.Fileset.State.{Kind, file, dir, leafdir, Entry, Group}

-- The flags of an inserted entry: FSE_FREE, or FSE_EXISTS for a directory. ipc_malloc has cleared
-- the rest of it.
abbrev pub fresh : Kind → Entry
fresh kind =
    let is_dir : Bool = (elim kind [ file ↦ false | dir ↦ true | leafdir ↦ false ]) in
    record {
      free = if is_dir then false else true;
      exists = is_dir;
      busy = false;
      reusing = false;
      thrd_waiting = false;
      open_cnt = pos 0;
    }

module _ (a : Avl) where
  -- fileset_insfilelist, fileset_insdirlist or fileset_insleafdirlist, of an entry with fse_index
  -- `i`.
  unfoldable pub insert_entry : Kind → Group a.Tree → ℕ → Group a.Tree
  insert_entry kind g i =
      let g' = record g {
        entries = update g.entries i (fresh kind);
        created = suc g.created;
        listed = true;
      } in
      (elim kind [
        | file ↦ record g' { free_tree = a.avl_add g.free_tree i }
        | dir ↦ record g' { exist_tree = a.avl_add g.exist_tree i }
        | leafdir ↦ record g' { free_tree = a.avl_add g.free_tree i }
      ])

  -- Whether FILEBENCH_OK is returned, and the group. The index is the idle count before; a
  -- directory's path string is allocated before it is inserted.
  unfoldable pub populate_entry :
      Kind → (has_entry has_path : Bool) → Group a.Tree → Bool × Group a.Tree
  unfolding insert_entry
  populate_entry kind has_entry has_path g =
      let counted = record g { idle = g.idle +ℤ pos 1 } in
      let inserted = insert_entry kind counted (pos_part g.idle) in
      if has_entry
      then (elim kind [
        | file ↦ (has_path, inserted)
        | dir ↦ if has_path then (true, inserted) else (false, counted)
        | leafdir ↦ (has_path, inserted)
      ])
      else (false, g)

  -- So many entries of a kind, with all the memory they need.
  abbrev pub populate : Kind → ℕ → Group a.Tree → Group a.Tree
  populate kind zero g = g
  populate kind (suc n) g = (populate_entry kind true true (populate kind n g)).1
