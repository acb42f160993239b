-- ===== src/Fileset/Path/Laws.antt =====
-- fileset_resolvepath of filebench/fileset.c: the path that it makes.
use filebench_pre_fsl.Base.{
  ℕ, zero, suc, ◌≤◌, ◌<◌, ◌^◌, ◌≡◌, refl, sym, ◌∙◌, ap, Option, none, some, List, [], ◌∷◌, ◌++◌,
  arith, length, update, update_same, update_other,
}
use mathlib.Core.Path.{subst}
use mathlib.Core.List.{append_assoc, append-nil}
use filebench_pre_fsl.Ipc.Strings.{Holds}
use filebench_pre_fsl.Strings.{fb_strlcpy, fb_strlcat}
use filebench_pre_fsl.Strings.Copy.{take, fb_strlcpy_lem, fb_strlcat_lem}
use filebench_pre_fsl.Fileset.Path.{slash, path_loop, fileset_resolvepath}

take-take : {A : Type 0} (n m : ℕ) (xs : List A) → n ≤ m → take n (take m xs) ≡ take n xs
take-take zero m xs le = refl
take-take (suc n) zero xs le = absurd (omega arith)
take-take (suc n) (suc m) [] le = refl
take-take (suc n) (suc m) (x ∷ xs) le = ap (λ l. x ∷ l) (take-take n m xs (omega arith))

take-nil : {A : Type 0} (n : ℕ) → take {A = A} n [] ≡ []
take-nil zero = refl
take-nil (suc n) = refl

-- Cutting the first list changes nothing.
pub take-append_left :
    {A : Type 0} (n m : ℕ) (xs ys : List A) → n ≤ m → take n (take m xs ++ ys) ≡ take n (xs ++ ys)
take-append_left zero m xs ys le = refl
take-append_left (suc n) zero xs ys le = absurd (omega arith)
take-append_left (suc n) (suc m) [] ys le = refl
take-append_left (suc n) (suc m) (x ∷ xs) ys le =
    ap (λ l. x ∷ l) (take-append_left n m xs ys (omega arith))

pub take-append-take :
    {A : Type 0} (n m k : ℕ) (xs ys : List A)
    → n ≤ m
    → n ≤ k
    → take n (take m xs ++ take k ys) ≡ take n (xs ++ ys)
take-append-take zero m k xs ys le le' = refl
take-append-take (suc n) zero k xs ys le le' = absurd (omega arith)
take-append-take (suc n) (suc m) k [] ys le le' = take-take (suc n) k ys le'
take-append-take (suc n) (suc m) k (x ∷ xs) ys le le' =
    ap (λ l. x ∷ l) (take-append-take n m k xs ys (omega arith) (omega arith))

pub slash-Holds : (mem : ℕ → ℕ) → Holds (slash mem) 0 (47 ∷ [])
slash-Holds mem = (
  update_other (update mem 0 47) 1 0 0 (λ e. omega arith) ∙ update_same mem 0 47,
  (λ e. omega arith),
  update_same (update mem 0 47) 1 0,
)

-- The entries above an entry, up to the root, which has no parent.
abbrev pub Above : (fse_parent : ℕ → Option ℕ) → ℕ → List ℕ → Type 0
Above fse_parent e [] = fse_parent e ≡ none
Above fse_parent e (p ∷ ps) = (fse_parent e ≡ some p) × Above fse_parent p ps

-- The names from below the root down to the entry, each behind a '/'.
abbrev pub full_path : (name : ℕ → List ℕ) → ℕ → List ℕ → List ℕ
full_path name e [] = []
full_path name e (p ∷ ps) = full_path name p ps ++ (47 ∷ name e)

module _ (fse_parent : ℕ → Option ℕ) (fse_path : ℕ → ℕ → ℕ) (name : ℕ → List ℕ)
    (named : (e : ℕ) → Holds (fse_path e) 0 (name e)) (room : ℕ) (small : room < 2 ^ 32) where
  path_loop-Holds :
      (fuel e : ℕ) (es q : List ℕ) (path pathtmp : ℕ → ℕ)
      → Above fse_parent e es
      → length es < fuel
      → Holds path 0 (take room q)
      → (resolved : ℕ → ℕ) × (path_loop fse_parent fse_path (suc room) fuel e path pathtmp
          ≡ some resolved)
        × Holds resolved 0 (take room (full_path name e es ++ q))
  unfolding path_loop
  path_loop-Holds zero e es q path pathtmp above lt h = absurd (omega arith)
  path_loop-Holds (suc fuel) e [] q path pathtmp above lt h = (path, rw (above, path_loop) refl, h)
  path_loop-Holds (suc fuel) e (p ∷ ps) q path pathtmp (up, above) lt h =
      let first = (fb_strlcat (slash pathtmp) (fse_path e) (suc room)).0 in
      let longer = (fb_strlcat first path (suc room)).0 in
      let (in_first, _) =
        fb_strlcat_lem (slash pathtmp) (fse_path e) room (47 ∷ []) (name e) small
          (slash-Holds pathtmp) (named e) in
      let (in_longer, _) =
        fb_strlcat_lem first path room (take room (47 ∷ name e)) (take room q) small in_first h in
      let (in_path, _) =
        fb_strlcpy_lem path longer room (take room (take room (47 ∷ name e) ++ take room q)) small
          in_longer in
      let same : take room (take room (take room (47 ∷ name e) ++ take room q))
          ≡ take room ((47 ∷ name e) ++ q) =
        take-take room room _ (omega arith)
        ∙ take-append-take room room room (47 ∷ name e) q (omega arith) (omega arith) in
      let path' = (fb_strlcpy path longer (suc room)).0 in
      let (resolved, is, holds) =
        path_loop-Holds fuel p ps ((47 ∷ name e) ++ q) path' longer above (omega arith)
          (subst (λ l. Holds path' 0 l) same in_path) in
      (
        resolved,
        rw (up, path_loop) is,
        subst (λ l. Holds resolved 0 (take room l))
            (sym (append_assoc (full_path name p ps) (47 ∷ name e) q)) holds,
      )

  -- fileset_resolvepath, on fuel for the entry and those above it, gives a string: the names on the
  -- way from the root down to the entry, each behind a '/', as far as they have room in MAXPATHLEN
  -- bytes, where each fse_path is a string and MAXPATHLEN is not zero and at most 2^32; and of the
  -- memory that malloc gives it writes no more than that string and its zero.
  pub fileset_resolvepath_lem :
      (fuel e : ℕ) (es : List ℕ) (path pathtmp s : ℕ → ℕ)
      → Above fse_parent e es
      → length es < fuel
      → (s' : ℕ → ℕ) × (fileset_resolvepath fse_parent fse_path (suc room) fuel e path pathtmp s
          ≡ some s')
        × Holds s' 0 (take room (full_path name e es))
        × ((k : ℕ) → length (take room (full_path name e es)) < k → s' k ≡ s k)
  unfolding fileset_resolvepath
  fileset_resolvepath_lem fuel e es path pathtmp s above lt =
      let whole = full_path name e es in
      let empty : Holds (update path 0 0) 0 (take room []) =
        subst (λ l. Holds (update path 0 0) 0 l) (sym (take-nil room)) (update_same path 0 0) in
      let (resolved, is, holds) =
        path_loop-Holds fuel e es [] (update path 0 0) pathtmp above lt empty in
      let same : take room (take room (whole ++ [])) ≡ take room whole =
        take-take room room (whole ++ []) (omega arith)
        ∙ ap (λ l. take room l) (append-nil whole) in
      let (copied, behind) = fb_strlcpy_lem s resolved room (take room (whole ++ [])) small holds in
      (
        (fb_strlcpy s resolved (suc room)).0,
        rw (is, fileset_resolvepath) refl,
        subst (λ l. Holds (fb_strlcpy s resolved (suc room)).0 0 l) same copied,
        λ k beyond. behind k (rw same beyond),
      )
