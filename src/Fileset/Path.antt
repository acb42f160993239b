-- ===== src/Fileset/Path.antt =====
-- fileset_resolvepath of filebench/fileset.c. A string is in a memory of its own, a function from
-- indexes to bytes; `maxpathlen` is MAXPATHLEN, a constant of the system.
pub mod Laws
use filebench_pre_fsl.Base.{ℕ, zero, suc, Option, none, some, update}
use filebench_pre_fsl.Strings.{fb_strlcpy, fb_strlcat}

-- strcpy(mem, "/")
abbrev pub slash : (ℕ → ℕ) → ℕ → ℕ
slash mem = update (update mem 0 47) 1 0

module _ (fse_parent : ℕ → Option ℕ) (fse_path : ℕ → ℕ → ℕ) (maxpathlen : ℕ) where
  -- The loop over the parents, on fuel, with path and pathtmp.
  unfoldable pub path_loop : (fuel fsep : ℕ) → (path pathtmp : ℕ → ℕ) → Option (ℕ → ℕ)
  unfolding fb_strlcpy fb_strlcat
  path_loop zero fsep path pathtmp = none
  path_loop (suc fuel) fsep path pathtmp = elim (fse_parent fsep) [
    | none ↦ some path
    | some parent ↦
        let named = (fb_strlcat (slash pathtmp) (fse_path fsep) maxpathlen).0 in
        let longer = (fb_strlcat named path maxpathlen).0 in
        path_loop fuel parent (fb_strlcpy path longer maxpathlen).0 longer
  ]

  -- path, pathtmp and s, the memory that malloc gives, start with any contents.
  unfoldable pub fileset_resolvepath : (fuel entry : ℕ) → (path pathtmp s : ℕ → ℕ) → Option (ℕ → ℕ)
  unfolding path_loop fb_strlcpy
  fileset_resolvepath fuel entry path pathtmp s =
      elim (path_loop fuel entry (update path 0 0) pathtmp) [
        | none ↦ none
        | some resolved ↦ some (fb_strlcpy s resolved maxpathlen).0
      ]
