-- ===== src/Fileset/Pick/Scan.antt =====
-- The loop of fileset_pick over busy entries.
use filebench_pre_fsl.Base.{
  ℕ, zero, suc, ◌+◌, ◌≤◌, ◌<◌, ◌≡◌, ◌∙◌, ap, ◌≢◌, ◌⊎◌, inl, inr, true, false, Option, none, some,
  arith, Bool-cases, Order-cases,
}
use filebench_pre_fsl.Fileset.Avl.{Avl, AvlLaws, mem}
use filebench_pre_fsl.Fileset.State.{Entry}
use filebench_pre_fsl.Fileset.Pick.{next_or_first, pick_scan}

module _ (a : Avl) (laws : AvlLaws a) (t : a.Tree) where
  -- The least member above `e`; past the end, the least member of all.
  abbrev Next : ℕ → Option ℕ → Type 0
  Next e r =
      ((j : ℕ) × (r ≡ some j)
        × (mem a t j ≡ true)
        × (e < j)
        × ((k : ℕ) → mem a t k ≡ true → e < k → j ≤ k))
      ⊎ ((j : ℕ) × (r ≡ some j)
          × (mem a t j ≡ true)
          × ((k : ℕ) → mem a t k ≡ true → j ≤ k)
          × ((k : ℕ) → mem a t k ≡ true → k ≤ e))

  pub first_Least :
      (e : ℕ)
      → mem a t e ≡ true
      → (j : ℕ) × (a.avl_first t ≡ some j)
        × (mem a t j ≡ true)
        × ((k : ℕ) → mem a t k ≡ true → j ≤ k)
  first_Least e h = elim (laws.first_lem t) [ inl (_, empty) ↦ cc (empty e) | inr least ↦ least ]

  next_or_first-Next : (e : ℕ) → mem a t e ≡ true → Next e (next_or_first a t e)
  unfolding next_or_first
  next_or_first-Next e h = elim (laws.next_lem t e h) [
    | inl (stop, last) ↦
        let (j, first, m, least) = first_Least e h in
        inr (j, rw (stop, next_or_first) first, m, least, last)
    | inr (j, step, m, above, least) ↦ inl (j, rw (step, next_or_first), m, above, least)
  ]

  module _ (entries : ℕ → Entry) (start : ℕ) (in_tree : mem a t start ≡ true) where
    -- The loop ends at a member that is not busy, or all members are busy.
    abbrev pub Ends : Option (Option ℕ) → Type 0
    Ends r =
        ((e : ℕ) × (r ≡ some (some e)) × (mem a t e ≡ true) × ((entries e).busy ≡ false))
        ⊎ ((r ≡ some none) × ((k : ℕ) → mem a t k ≡ true → (entries k).busy ≡ true))

    abbrev BusyFrom : ℕ → ℕ → Type 0
    BusyFrom lo hi = (k : ℕ) → lo ≤ k → k < hi → mem a t k ≡ true → (entries k).busy ≡ true

    scan-idle :
        (fuel e : ℕ)
        → (entries e).busy ≡ false
        → pick_scan a (suc fuel) t entries start e ≡ some (some e)
    unfolding pick_scan
    scan-idle fuel e h = rw h

    scan-last :
        (fuel e : ℕ)
        → (entries e).busy ≡ true
        → next_or_first a t e ≡ some start
        → pick_scan a (suc fuel) t entries start e ≡ some none
    unfolding pick_scan
    scan-last fuel e h n = rw (h, n) (ground arith)

    scan-next :
        (fuel e j : ℕ)
        → (entries e).busy ≡ true
        → next_or_first a t e ≡ some j
        → j ≢ start
        → pick_scan a (suc fuel) t entries start e ≡ pick_scan a fuel t entries start j
    unfolding pick_scan
    scan-next fuel e j h n ne = rw (h, n) (ground arith)

    busy_or_idle : (e : ℕ) → ((entries e).busy ≡ true) ⊎ ((entries e).busy ≡ false)
    busy_or_idle e = Bool-cases (entries e).busy

    -- Below the start, after the wrap: the members from the start on and those below `e` are busy.
    scan_low :
        (fuel e : ℕ)
        → mem a t e ≡ true
        → e < start
        → start < e + fuel
        → ((k : ℕ) → start ≤ k → mem a t k ≡ true → (entries k).busy ≡ true)
        → BusyFrom 0 e
        → Ends (pick_scan a fuel t entries start e)
    scan_low zero e m h hf above below = absurd (omega arith)
    scan_low (suc fuel) e m h hf above below = elim (busy_or_idle e) [
      | inr idle ↦ inl (e, scan-idle fuel e idle, m, idle)
      | inl busy ↦ elim (next_or_first-Next e m) [
        | inr (j, _, _, _, last) ↦ let le : start ≤ e = last start in_tree in absurd (omega arith)
        | inl (j, step, mj, up, least) ↦
            let le : j ≤ start = least start in_tree h in
            let passed : BusyFrom 0 j = λ k p q mk. elim (Order-cases k e) [
              | inl lt ↦ below k p lt mk
              | inr (inl eq) ↦ rw eq busy
              | inr (inr gt) ↦ let le' : j ≤ k = least k mk gt in absurd (omega arith)
            ] in
            elim (Order-cases j start) [
              | inl lt ↦
                  rw (scan-next fuel e j busy step (omega arith))
                    (scan_low fuel j mj lt (omega arith) above passed)
              | inr (inl eq) ↦ inr (
                scan-last fuel e busy (step ∙ ap some eq),
                λ k mk. elim (Order-cases k start) [
                  | inl low ↦ passed k (omega arith) (omega arith) mk
                  | inr (inl same) ↦ above k (omega arith) mk
                  | inr (inr high) ↦ above k (omega arith) mk
                ],
              )
              | inr (inr gt) ↦ absurd (omega arith)
            ]
      ]
    ]

    -- From the start up: the members from the start below `e` are busy.
    scan_high :
        (fuel bound e : ℕ)
        → ((k : ℕ) → mem a t k ≡ true → k < bound)
        → mem a t e ≡ true
        → start ≤ e
        → bound + start < e + fuel
        → BusyFrom start e
        → Ends (pick_scan a fuel t entries start e)
    scan_high zero bound e inside m h hf before =
        let lt : e < bound = inside e m in absurd (omega arith)
    scan_high (suc fuel) bound e inside m h hf before = elim (busy_or_idle e) [
      | inr idle ↦ inl (e, scan-idle fuel e idle, m, idle)
      | inl busy ↦
          let passed : (k : ℕ) → start ≤ k → k ≤ e → mem a t k ≡ true → (entries k).busy ≡ true =
            λ k p q mk. elim (Order-cases k e) [
              | inl lt ↦ before k p lt mk
              | inr (inl eq) ↦ rw eq busy
              | inr (inr gt) ↦ absurd (omega arith)
            ] in
          elim (next_or_first-Next e m) [
            | inr (j, step, mj, least, last) ↦
                let le : j ≤ start = least start in_tree in
                let high : (k : ℕ) → start ≤ k → mem a t k ≡ true → (entries k).busy ≡ true =
                  λ k p mk. passed k p (last k mk) mk in
                elim (Order-cases j start) [
                  | inl lt ↦
                      let room : e < bound = inside e m in
                      rw (scan-next fuel e j busy step (omega arith)) (
                        scan_low fuel j mj lt (omega arith) high
                          (λ k p q mk. let le' : j ≤ k = least k mk in absurd (omega arith)))
                  | inr (inl eq) ↦ inr (
                    scan-last fuel e busy (step ∙ ap some eq),
                    λ k mk. let from : j ≤ k = least k mk in high k (omega arith) mk,
                  )
                  | inr (inr gt) ↦ absurd (omega arith)
                ]
            | inl (j, step, mj, up, least) ↦ rw (scan-next fuel e j busy step (omega arith)) (
                scan_high fuel bound j inside mj (omega arith) (omega arith) (λ k p q mk.
                  elim (Order-cases k e) [
                    | inl lt ↦ passed k p (omega arith) mk
                    | inr (inl eq) ↦ passed k p (omega arith) mk
                    | inr (inr gt) ↦ let le' : j ≤ k = least k mk gt in absurd (omega arith)
                  ]))
          ]
    ]

    -- The loop from the chosen entry ends within the fuel.
    pub pick_scan-Ends :
        (bound fuel : ℕ)
        → ((k : ℕ) → mem a t k ≡ true → k < bound)
        → bound < fuel
        → Ends (pick_scan a fuel t entries start start)
    pick_scan-Ends bound fuel inside hf =
        scan_high fuel bound start inside in_tree (omega arith) (omega arith)
          (λ k p q mk. absurd (omega arith))
