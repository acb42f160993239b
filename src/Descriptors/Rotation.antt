-- ===== src/Descriptors/Rotation.antt =====
-- The descriptors that a rotating flowop goes through.
use filebench_pre_fsl.Base.{
  ℕ, zero, suc, ◌+◌, ◌-◌, ◌*◌, ◌≤◌, ◌<◌, ◌≡◌, refl, ap, ◌∙◌, true, Option, some, arith, ltb,
  if_elim,
}
use filebench_pre_fsl.Descriptors.{FdOp, rotate, flowoplib_fdnum}

abbrev pub rotating : ℕ → FdOp
rotating entries = record { fdnumber = 0; rotatefd = true; const_entries = some entries }

-- tf_fdrotor after n calls.
abbrev pub rotor_after : (entries n : ℕ) → ℕ
rotor_after entries zero = 0
rotor_after entries (suc n) = (flowoplib_fdnum (rotating entries) (rotor_after entries n)).1

fdnum_rotates :
    (entries rotor : ℕ)
    → entries ≤ 64
    → flowoplib_fdnum (rotating entries) rotor ≡ (some (rotate entries rotor), rotate entries rotor)
unfolding flowoplib_fdnum
fdnum_rotates entries rotor few =
    if_elim (λ r. r ≡ (some (rotate entries rotor), rotate entries rotor)) (ltb 64 entries)
      (λ many. ground arith) (λ _. refl)

rotate_first : (entries : ℕ) → 0 < entries → rotate entries 0 ≡ 127
unfolding rotate
rotate_first entries positive = ground arith

rotate_next :
    (entries k : ℕ) → suc k < entries → entries ≤ 64 → rotate entries (127 - k) ≡ 127 - suc k
unfolding rotate
rotate_next entries k lt few = ground arith

rotate_wraps : (entries k : ℕ) → suc k ≡ entries → entries ≤ 64 → rotate entries (127 - k) ≡ 127
unfolding rotate
rotate_wraps entries k last few = ground arith

rotor_step :
    (entries m n : ℕ)
    → entries ≤ 64
    → m ≡ suc n
    → rotor_after entries m ≡ rotate entries (rotor_after entries n)
rotor_step entries m n few is =
    ap (rotor_after entries) is
    ∙ ap (λ (p : Option ℕ × ℕ). p.1) (fdnum_rotates entries (rotor_after entries n) few)

cycle_from :
    (e r k : ℕ)
    → suc e ≤ 64
    → k < suc e
    → rotate (suc e) (rotor_after (suc e) (r * suc e + k)) ≡ 127 - k
cycle_from e zero zero few lt =
    let start : zero * suc e + zero ≡ 0 = ground arith in
    rw start (rotate_first (suc e) (ground arith))
cycle_from e (suc r) zero few lt =
    let back : suc r * suc e + zero ≡ suc (r * suc e + e) = grind arith in
    ap (rotate (suc e)) (
      rotor_step (suc e) (suc r * suc e + zero) (r * suc e + e) few back
      ∙ cycle_from e r e few (ground arith))
    ∙ rotate_wraps (suc e) e refl few
cycle_from e r (suc k) few lt =
    let back : r * suc e + suc k ≡ suc (r * suc e + k) = ground arith in
    ap (rotate (suc e)) (
      rotor_step (suc e) (r * suc e + suc k) (r * suc e + k) few back
      ∙ cycle_from e r k few (ground arith))
    ∙ rotate_next (suc e) k lt few

-- In a thread whose rotor is 0, a rotating flowop on a fileset of 1 to 64 files gets the
-- descriptors 127, 126 and so on, one for each file, and begins again at 127 after the last: in
-- round r, call k gives 127 - k.
pub fdnum_cycle :
    (entries r k : ℕ)
    → entries ≤ 64
    → k < entries
    → flowoplib_fdnum (rotating entries) (rotor_after entries (r * entries + k))
      ≡ (some (127 - k), 127 - k)
fdnum_cycle zero r k few lt = ground arith
fdnum_cycle (suc e) r k few lt =
    fdnum_rotates (suc e) (rotor_after (suc e) (r * suc e + k)) few
    ∙ ap (λ fd. (some fd, fd)) (cycle_from e r k few lt)
