-- ===== src/Random/Range.antt =====
-- The ranges of filebench_randomno64 and filebench_randomno32.
use filebench_pre_fsl.Base.{
  ℕ, ◌+◌, ◌-◌, ◌*◌, ◌/◌, Option, ◌≤◌, ◌<◌, ◌≡◌, refl, ◌⊎◌, inl, inr, none, some, arith, ltb, leb,
  ◌==◌, if◌then◌else◌, if_elim,
}
use filebench_pre_fsl.Random.{filebench_randomno64, filebench_randomno32, randmax64, randmax32}

clip_fits :
    (max round n : ℕ) → round < max → (if ltb (max - round) n then max - round else n) + round ≤ max
clip_fits max round n lt =
    if_elim (λ k. k + round ≤ max) (ltb (max - round) n) (λ _. ground arith) (λ small. ground arith)

pub randomno64_range :
    (random max round : ℕ)
    → ((filebench_randomno64 random max round ≡ none) × (max < round))
      ⊎ ((n : ℕ) × (filebench_randomno64 random max round ≡ some n) × (n + round ≤ max))
unfolding filebench_randomno64
randomno64_range random max round =
    if_elim (λ r. ((r ≡ none) × (max < round)) ⊎ ((n : ℕ) × (r ≡ some n) × (n + round ≤ max)))
      (leb max round)
      (λ le.
        if_elim (λ r. ((r ≡ none) × (max < round)) ⊎ ((n : ℕ) × (r ≡ some n) × (n + round ≤ max)))
          (max == round) (λ same. inr (0, refl, ground arith))
          (λ differs. inl (refl, ground arith)))
      (λ gt. inr (_, refl, clip_fits max round _ (ground arith)))

-- A multiple of the rounding, or the last number that it fits behind.
abbrev pub Placed : (max round n : ℕ) → Type 0
Placed max round n = (round ≡ 0) ⊎ (((k : ℕ) × (n ≡ k * round)) ⊎ (n ≡ max - round))

-- -1, or a number that a block of the rounded size fits behind.
abbrev pub Ranged : (max round : ℕ) → Option ℕ → Type 0
Ranged max round r =
    ((r ≡ none) × (max < round)) ⊎ ((n : ℕ) × (r ≡ some n) × (n + round ≤ max) × Placed max round n)

rounded_Placed :
    (max round scaled : ℕ)
    → Placed max round (if round == 0 then scaled else (scaled / round) * round)
rounded_Placed max round scaled =
    if_elim (Placed max round) (round == 0) (λ e. inl (ground arith))
      (λ _. inr (inl (scaled / round, refl)))

clipped_Placed :
    (max round n : ℕ)
    → Placed max round n
    → Placed max round (if ltb (max - round) n then max - round else n)
clipped_Placed max round n h =
    if_elim (Placed max round) (ltb (max - round) n) (λ _. inr (inr refl)) (λ _. h)

-- The code of both, for a scaled random number.
scaled_Ranged :
    (scaled max round : ℕ)
    → Ranged max round (
        if leb max round
        then (if max == round then some 0 else none)
        else (let rounded = if round == 0 then scaled else (scaled / round) * round in
            some (if ltb (max - round) rounded then max - round else rounded)))
scaled_Ranged scaled max round =
    if_elim (Ranged max round) (leb max round)
      (λ le.
        if_elim (Ranged max round) (max == round)
          (λ same. inr (0, refl, ground arith, inr (inl (0, omega arith))))
          (λ differs. inl (refl, ground arith)))
      (λ gt. inr (
        _,
        refl,
        clip_fits max round _ (ground arith),
        clipped_Placed max round _ (rounded_Placed max round scaled),
      ))

-- filebench_randomno64 and filebench_randomno32 fail exactly when the maximum is below the rounding,
-- and otherwise give a number such that a block of the rounded size that starts there ends by the
-- maximum; where the rounding is not 0, the number is a multiple of it, or the last that fits.
pub randomno_Ranged :
    (random max round : ℕ)
    → Ranged max round (filebench_randomno64 random max round)
      × Ranged max round (filebench_randomno32 random max round)
unfolding filebench_randomno64 filebench_randomno32
randomno_Ranged random max round = (
  scaled_Ranged (random / (randmax64 / (max - round))) max round,
  scaled_Ranged (random / (randmax32 / (max - round))) max round,
)
