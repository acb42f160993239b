-- ===== src/FileOps/Dirs/Paths.antt =====
-- flowoplib_getdirpath of filebench/flowop_library.c: the path of a directory.
use filebench_pre_fsl.Base.{
  ℕ, suc, ◌<◌, ◌^◌, ◌≡◌, refl, ap, ◌∙◌, some, List, [], ◌∷◌, ◌++◌, arith, length,
}
use mathlib.Core.Path.{subst}
use filebench_pre_fsl.Ipc.Strings.{Holds}
use filebench_pre_fsl.Strings.{fb_strlcpy, fb_strlcat}
use filebench_pre_fsl.Strings.Copy.{take, fb_strlcpy_lem, fb_strlcat_lem}
use filebench_pre_fsl.Fileset.State.{Kind}
use filebench_pre_fsl.Fileset.Path.{fileset_resolvepath}
use filebench_pre_fsl.Fileset.Path.Laws.{
  take-append_left, take-append-take, slash-Holds, Above, full_path, fileset_resolvepath_lem,
}
use filebench_pre_fsl.FileOps.Dirs.{Names, slash_string, fileset_path, flowoplib_getdirpath}

fileset_path-Holds :
    (n : Names) (path name : ℕ → ℕ) (room : ℕ) (p q : List ℕ)
    → n.maxpathlen ≡ suc room
    → room < 2 ^ 32
    → Holds path 0 p
    → Holds name 0 q
    → Holds (fileset_path n path name) 0 (take room (p ++ 47 ∷ [] ++ q))
unfolding fileset_path
fileset_path-Holds n path name room p q size small hp hq =
    let copied = (fb_strlcpy n.full_path path (suc room)).0 in
    let slashed = (fb_strlcat copied slash_string (suc room)).0 in
    let (in_copied, _) = fb_strlcpy_lem n.full_path path room p small hp in
    let (in_slashed, _) =
      fb_strlcat_lem copied slash_string room (take room p) (47 ∷ []) small in_copied
        (slash-Holds (λ k. 0)) in
    let (in_named, _) =
      fb_strlcat_lem slashed name room (take room (take room p ++ 47 ∷ [])) q small in_slashed hq in
    let cut : take room (take room (take room p ++ 47 ∷ []) ++ q) ≡ take room (p ++ 47 ∷ [] ++ q) =
      ap (λ l. take room (l ++ q)) (take-append_left room room p (47 ∷ []) (omega arith))
      ∙ take-append_left room room (p ++ 47 ∷ []) q (omega arith) in
    rw (size, fileset_path)
      (subst (λ l. Holds (fb_strlcat slashed name (suc room)).0 0 l) cut in_named)

-- Where the fileset's path and name are set and every fse_path is a string, flowoplib_getdirpath
-- succeeds, with fuel for the entry and those above it: it gives the fileset's path, '/', its name,
-- and the names from the root down to the entry, each behind a '/', as far as they have room in
-- MAXPATHLEN bytes, which is not zero and at most 2^32.
pub flowoplib_getdirpath_lem :
    (n : Names) (kind : Kind) (e room : ℕ) (path fs_name : ℕ → ℕ) (p q : List ℕ) (name : ℕ → List ℕ)
    (es : List ℕ)
    → n.maxpathlen ≡ suc room
    → room < 2 ^ 32
    → n.fs_path ≡ some path
    → Holds path 0 p
    → n.fs_name ≡ some fs_name
    → Holds fs_name 0 q
    → ((i : ℕ) → Holds (n.fse_path i) 0 (name i))
    → Above n.fse_parent (n.number kind e) es
    → length es < n.fuel
    → (r : ℕ → ℕ) × (flowoplib_getdirpath n kind e ≡ some (some r))
      × Holds r 0 (take room (p ++ 47 ∷ [] ++ q ++ full_path name (n.number kind e) es))
unfolding flowoplib_getdirpath fileset_path
flowoplib_getdirpath_lem n kind e room path fs_name p q name es size small is_p hp is_q hq named
      above lt =
    let whole = full_path name (n.number kind e) es in
    let (part, is, holds, _) =
      fileset_resolvepath_lem n.fse_parent n.fse_path name named room small n.fuel (n.number kind e)
        es n.path n.pathtmp n.s above lt in
    let start = fileset_path-Holds n path fs_name room p q size small hp hq in
    let (joined, _) =
      fb_strlcat_lem (fileset_path n path fs_name) part room (take room (p ++ 47 ∷ [] ++ q))
        (take room whole) small start holds in
    let is' : fileset_resolvepath n.fse_parent n.fse_path n.maxpathlen n.fuel (n.number kind e)
          n.path n.pathtmp n.s
        ≡ some part =
      ap
        (λ k.
          fileset_resolvepath n.fse_parent n.fse_path k n.fuel (n.number kind e) n.path n.pathtmp
            n.s)
        size
      ∙ is in
    (
      (fb_strlcat (fileset_path n path fs_name) part (suc room)).0,
      rw (is_p, is_q, is', size, flowoplib_getdirpath) refl,
      subst (λ l. Holds (fb_strlcat (fileset_path n path fs_name) part (suc room)).0 0 l)
          (take-append-take room room room (p ++ 47 ∷ [] ++ q) whole (omega arith) (omega arith))
          joined,
    )
