-- ===== src/Tests/Paths.antt =====
-- Runs of the model of fileset_resolvepath, on the chain of entries 2, 1 and the root 0.
use filebench_pre_fsl.Base.{
  ℕ, zero, suc, ◌+◌, ◌≡◌, refl, Option, none, some, List, [], ◌∷◌, arith, update,
}
use filebench_pre_fsl.Ipc.Strings.{Holds}
use filebench_pre_fsl.Strings.{fb_strlcpy, fb_strlcat, copy_loop, end_loop}
use filebench_pre_fsl.Fileset.Path.{path_loop, fileset_resolvepath}
use filebench_pre_fsl.Fileset.Path.Laws.{full_path}

abbrev pub fse_parent : ℕ → Option ℕ
fse_parent zero = none
fse_parent (suc e) = some e

-- The entry's name is one letter.
abbrev pub letter : ℕ → List ℕ
letter e = (97 + e) ∷ []

abbrev pub blank : ℕ → ℕ
blank k = 0

abbrev pub fse_path : ℕ → ℕ → ℕ
fse_path e = update blank 0 (97 + e)

pub letter-Holds : (e : ℕ) → Holds (fse_path e) 0 (letter e)
letter-Holds e = (refl, (λ z. omega arith), refl)

-- "/b/c", the name of the root left out.
path : full_path letter 2 (1 ∷ 0 ∷ []) ≡ 47 ∷ 98 ∷ 47 ∷ 99 ∷ []
path = refl

-- "/b/c" in 4 bytes is "/b/".
abbrev byte : Option (ℕ → ℕ) → ℕ → ℕ
byte none k = 0
byte (some s) k = s k

cut : byte (fileset_resolvepath fse_parent fse_path 4 3 2 blank blank blank) 2 ≡ 47
unfolding fileset_resolvepath path_loop fb_strlcpy fb_strlcat copy_loop end_loop
cut = refl

cut_end : byte (fileset_resolvepath fse_parent fse_path 4 3 2 blank blank blank) 3 ≡ 0
unfolding fileset_resolvepath path_loop fb_strlcpy fb_strlcat copy_loop end_loop
cut_end = refl
