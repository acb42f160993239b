-- ===== src/Fileset/Idle.antt =====
-- The count of entries that are not busy.
use filebench_pre_fsl.Base.{
  ℕ, zero, suc, ◌+◌, ◌≤◌, ◌<◌, ◌≡◌, refl, inl, inr, true, false, arith, ◌==◌, if◌then◌else◌, update,
  Bool-cases,
}
use filebench_pre_fsl.Base.Int.{pos, negsuc, ◌+ℤ◌}
use filebench_pre_fsl.Fileset.State.{Entry, idle_below}

abbrev pub idle_bit : Entry → ℕ
idle_bit e = if e.busy then 0 else 1

idle_below-suc :
    (n : ℕ) (entries : ℕ → Entry)
    → idle_below (suc n) entries ≡ idle_below n entries + idle_bit (entries n)
unfolding idle_below
idle_below-suc n entries = ground arith

idle_below-update_ge :
    (n : ℕ) (entries : ℕ → Entry) (e : ℕ) (x : Entry)
    → n ≤ e
    → idle_below n (update entries e x) ≡ idle_below n entries
idle_below-update_ge zero entries e x h = unfold idle_below in refl
idle_below-update_ge (suc n) entries e x h = ground (
  arith,
  idle_below-suc n entries,
  idle_below-suc n (update entries e x),
  idle_below-update_ge n entries e x,
)

-- Changing one entry in use changes the count by that entry's own share.
pub idle_below-update :
    (n : ℕ) (entries : ℕ → Entry) (e : ℕ) (x : Entry)
    → e < n
    → idle_below n (update entries e x) + idle_bit (entries e) ≡ idle_below n entries + idle_bit x
idle_below-update zero entries e x h = absurd (omega arith)
idle_below-update (suc n) entries e x h = elim (Bool-cases (e == n)) [
  | inl same ↦
      let eq : e ≡ n = ground arith in
      ground (
        arith,
        idle_below-suc n entries,
        idle_below-suc n (update entries e x),
        idle_below-update_ge n entries e x,
      )
  | inr other ↦ ground (
    arith,
    idle_below-suc n entries,
    idle_below-suc n (update entries e x),
    idle_below-update n entries e x,
  )
]

-- A count of zero means that every entry in use is busy.
pub busy_of_idle-zero :
    (n : ℕ) (entries : ℕ → Entry)
    → idle_below n entries ≡ 0
    → (e : ℕ) → e < n
    → (entries e).busy ≡ true
busy_of_idle-zero zero entries h e lt = absurd (omega arith)
busy_of_idle-zero (suc n) entries h e lt = elim (Bool-cases (e == n)) [
  | inl same ↦ let eq : e ≡ n = ground arith in ground (arith, idle_below-suc n entries)
  | inr other ↦
      busy_of_idle-zero n entries (ground (arith, idle_below-suc n entries)) e (ground arith)
]

pub decr-suc : (n : ℕ) → pos (suc n) +ℤ negsuc 0 ≡ pos n
unfolding ◌+ℤ◌
decr-suc n = ground arith

pub incr-pos : (n : ℕ) → pos n +ℤ pos 1 ≡ pos (suc n)
unfolding ◌+ℤ◌
incr-pos n = ground arith

-- An entry in use that is not busy makes the count positive.
pub idle_pos :
    (n : ℕ) (entries : ℕ → Entry) (e : ℕ)
    → e < n
    → (entries e).busy ≡ false
    → (m : ℕ) × (idle_below n entries ≡ suc m)
idle_pos n entries e lt idle = cases (idle_below n entries) refl
  where
    cases : (k : ℕ) → idle_below n entries ≡ k → (m : ℕ) × (idle_below n entries ≡ suc m)
    cases zero h = let clash : (entries e).busy ≡ true = busy_of_idle-zero n entries h e lt in cc
    cases (suc m) h = (m, h)

pub idle_below_same :
    (n : ℕ) (entries : ℕ → Entry) (i : ℕ) (x : Entry)
    → i < n
    → x.busy ≡ (entries i).busy
    → idle_below n (update entries i x) ≡ idle_below n entries
idle_below_same n entries i x lt same = ground (arith, idle_below-update n entries i x lt)

pub idle_below_fresh :
    (n : ℕ) (entries : ℕ → Entry) (x : Entry)
    → x.busy ≡ false
    → idle_below (suc n) (update entries n x) ≡ suc (idle_below n entries)
idle_below_fresh n entries x idle =
    ground (arith, idle_below-suc n (update entries n x), idle_below-update_ge n entries n x)
