-- ===== src/Ipc/Scan.antt =====
-- The circular scan of ipc_malloc.
use filebench_pre_fsl.Base.{
  ℕ, zero, suc, ◌+◌, ◌≤◌, ◌<◌, ◌≡◌, ◌≢◌, ◌⊎◌, inl, inr, Option, some, arith, ◌==◌, leb, Bool-cases,
}
use filebench_pre_fsl.Ipc.{next_slot, scan}

-- Every slot from `lo` up to `hi` is taken.
abbrev pub Taken : (ℕ → ℕ) → ℕ → ℕ → Type 0
Taken bits lo hi = (k : ℕ) → lo ≤ k → k < hi → bits k ≢ 0

Taken-suc : (bits : ℕ → ℕ) (lo hi : ℕ) → Taken bits lo hi → bits hi ≢ 0 → Taken bits lo (hi + 1)
Taken-suc bits lo hi t h k p q = elim (Bool-cases (k == hi)) [
  | inl e ↦ let e' : k ≡ hi = ground arith in λ z. h (ground arith)
  | inr n ↦ t k p (ground arith)
]

-- One round of the loop, when the slot is taken and not the start.
scan-step :
    (fuel : ℕ) (bits : ℕ → ℕ) (max start i j : ℕ)
    → next_slot max i ≡ j
    → bits j ≢ 0
    → j ≢ start
    → scan (suc fuel) bits max start i ≡ scan fuel bits max start j
unfolding scan
scan-step fuel bits max start i j e h ne = ground arith

-- The last round of the loop.
scan-stop :
    (fuel : ℕ) (bits : ℕ → ℕ) (max start i j : ℕ)
    → next_slot max i ≡ j
    → (bits j ≡ 0) ⊎ (j ≡ start)
    → scan (suc fuel) bits max start i ≡ some j
unfolding scan
scan-stop fuel bits max start i j e h = ground arith

stop-cases : (b j start : ℕ) → ((b ≡ 0) ⊎ (j ≡ start)) ⊎ ((b ≢ 0) × (j ≢ start))
stop-cases b j start = ground arith

-- What the rest of a scan from below the start finds, the slots from `lo` on being taken so far.
abbrev Below : (ℕ → ℕ) → ℕ → ℕ → Option ℕ → Type 0
Below bits start lo r =
    (j : ℕ) × (r ≡ some j) × (j ≤ start) × Taken bits lo j × ((bits j ≡ 0) ⊎ (j ≡ start))

-- Below the start the scan stops at the first free slot, or at the start.
scan_before :
    (fuel : ℕ) (bits : ℕ → ℕ) (max start i j lo : ℕ)
    → next_slot max i ≡ j
    → j ≤ start
    → start < max
    → start < j + fuel
    → Taken bits lo j
    → Below bits start lo (scan fuel bits max start i)
scan_before zero bits max start i j lo e h hs hf taken = absurd (omega arith)
scan_before (suc fuel) bits max start i j lo e h hs hf taken = elim (stop-cases (bits j) j start) [
  | inl stop ↦ (j, scan-stop fuel bits max start i j e stop, h, taken, stop)
  | inr (used, ne) ↦ rw (scan-step fuel bits max start i j e used ne) (
      scan_before fuel bits max start j (j + 1) lo (ground arith) (omega arith) hs (omega arith)
        (Taken-suc bits lo j taken used))
]

-- What the scan from the start finds: a free slot above it, or one below with all above taken, or
-- the start with all others taken.
abbrev pub Scanned : (ℕ → ℕ) → ℕ → ℕ → Option ℕ → Type 0
Scanned bits max start r =
    ((j : ℕ) × (r ≡ some j) × (start < j) × (j < max) × (bits j ≡ 0) × Taken bits (start + 1) j)
    ⊎ ((j : ℕ) × (r ≡ some j)
        × (j ≤ start)
        × Taken bits (start + 1) max
        × Taken bits 0 j
        × ((bits j ≡ 0) ⊎ (j ≡ start)))

-- The wrap to slot 0, which may be the start itself.
scan_wrap :
    (fuel : ℕ) (bits : ℕ → ℕ) (max start i : ℕ)
    → next_slot max i ≡ 0
    → start < max
    → start < fuel
    → Taken bits (start + 1) max
    → Scanned bits max start (scan fuel bits max start i)
scan_wrap fuel bits max start i e hs hf taken =
    let (j, found, le, before, stop) =
      scan_before fuel bits max start i 0 0 e (omega arith) hs (omega arith)
        (λ k p q. absurd (omega arith)) in
    inr (j, found, le, taken, before, stop)

scan_above :
    (fuel : ℕ) (bits : ℕ → ℕ) (max start i : ℕ)
    → start ≤ i
    → i < max
    → start < max
    → max + start < i + 1 + fuel
    → Taken bits (start + 1) (i + 1)
    → Scanned bits max start (scan fuel bits max start i)
scan_above zero bits max start i h hi hs hf taken = absurd (omega arith)
scan_above (suc fuel) bits max start i h hi hs hf taken = elim (Bool-cases (leb max (i + 1))) [
  | inl last ↦
      let e : i + 1 ≡ max = ground arith in
      scan_wrap (suc fuel) bits max start i (ground arith) hs (omega arith)
        (λ k p q. taken k p (omega arith))
  | inr more ↦
      let e : next_slot max i ≡ i + 1 = ground arith in
      elim (stop-cases (bits (i + 1)) (i + 1) start) [
        | inl stop ↦ inl (
          i + 1,
          scan-stop fuel bits max start i (i + 1) e stop,
          omega arith,
          ground arith,
          ground arith,
          taken,
        )
        | inr (used, ne) ↦ rw (scan-step fuel bits max start i (i + 1) e used ne) (
            scan_above fuel bits max start (i + 1) (omega arith) (ground arith) hs (omega arith)
              (Taken-suc bits (start + 1) (i + 1) taken used))
      ]
]

-- `max` rounds are enough, and the scan takes the first free slot in circular order.
pub scan-Scanned :
    (bits : ℕ → ℕ) (max start : ℕ)
    → start < max
    → Scanned bits max start (scan max bits max start start)
scan-Scanned bits max start h =
    scan_above max bits max start start (omega arith) h h (omega arith)
      (λ k p q. absurd (omega arith))
