-- ===== src/Procs/Cleanup.antt =====
-- procflow_sleep and procflow_cleanup of filebench/procflow.c: how long it sleeps, and the search as
-- a removal from a linked list.
use filebench_pre_fsl.Base.{
  ℕ, zero, suc, ◌+◌, ◌%◌, ◌≡◌, refl, sym, ap, ◌∙◌, inl, inr, Bool, true, false, ◌&&◌, Option, some,
  ◌==◌, if◌then◌else◌, update, Bool-cases, Option-cases, arith,
}
use filebench_pre_fsl.Ipc.{Layout}
use filebench_pre_fsl.Flows.{Unlinked, unlinked, out_of_fuel, walk, unlink}
use filebench_pre_fsl.Procs.{
  Procs, procflow_sleep, Sought, found, not_found, no_fuel, seek, stop_running, free_procflow,
  procflow_cleanup,
}

-- Whether procflow_sleep sleeps for a second.
pub procflow_sleep_lem :
    (runs : ℕ → Bool) (slept wait : ℕ)
    → procflow_sleep runs slept wait ≡ (if runs slept && (wait % 2 == 1) then 1 else 0)
unfolding procflow_sleep
procflow_sleep_lem runs slept zero = elim (Bool-cases (runs slept)) [
  | inl on ↦ rw on refl
  | inr off ↦ rw off refl
]
procflow_sleep_lem runs slept (suc wait) = elim (Bool-cases (runs slept)) [
  | inr off ↦ rw off refl
  | inl on ↦ elim (Bool-cases (suc wait % 2 == 1)) [
    | inr even ↦ rw (on, even) refl
    | inl odd ↦
        let even : (wait % 2 == 1) ≡ false = ground arith in
        rw (on, odd, procflow_sleep_lem runs (slept + 1) wait, even, and_false (runs (slept + 1)))
          refl
  ]
]
  where
    and_false : (b : Bool) → b && false ≡ false
    and_false true = refl
    and_false false = refl

-- What walk makes of where the search ends.
unlinked_at : Sought → Option ℕ → (ℕ → Option ℕ) → ℕ → Unlinked
unlinked_at (found e) head next p = unlinked true head (update next e (next p))
unlinked_at not_found head next p = unlinked false head next
unlinked_at no_fuel head next p = out_of_fuel

walk-seek :
    (fuel : ℕ) (head : Option ℕ) (next : ℕ → Option ℕ) (e p : ℕ)
    → walk fuel head next e p ≡ unlinked_at (seek fuel next (some e) p) head next p
unfolding walk seek unlinked_at
walk-seek zero head next e p = refl
walk-seek (suc fuel) head next e p = elim (Option-cases (next e)) [
  | inl end' ↦ rw (end', walk, seek) refl
  | inr (n, follow) ↦ elim (Bool-cases (p == n)) [
    | inl here ↦ let same : p ≡ n = ground arith in rw (follow, here, walk, seek, same) refl
    | inr later ↦ rw (follow, later, walk, seek) (walk-seek fuel head next n p)
  ]
]

module _ {R : Type 0} where
  -- The procflow taken out of the list, and freed.
  unfoldable pub taken : Layout → ℕ → Option ℕ → (ℕ → Option ℕ) → Procs R → Procs R
  taken l p head next s =
      free_procflow l p (record (stop_running p s) { pf_next = next; shm_proclist = head })

  pub cleanup_by :
      (fuel p : ℕ) (l : Layout) (head' : Option ℕ) (next' : ℕ → Option ℕ) (s : Procs R) (h : ℕ)
      → s.shm_proclist ≡ some h
      → unlink fuel s.shm_proclist s.pf_next p ≡ unlinked true head' next'
      → procflow_cleanup fuel l p s ≡ some (true, taken l p head' next' s)
  unfolding procflow_cleanup unlink taken stop_running free_procflow unlinked_at
  cleanup_by fuel p l head' next' s h start e =
      let e' : unlink fuel (some h) s.pf_next p ≡ unlinked true head' next' =
        ap (λ x. unlink fuel x s.pf_next p) (sym start) ∙ e in
      elim (Bool-cases (p == h)) [
        | inl here ↦
            let e2 : unlinked true (s.pf_next p) s.pf_next ≡ unlinked true head' next' =
              rw (here, unlink) at e' in
            let head_same : s.pf_next p ≡ head' = cc in
            let next_same : s.pf_next ≡ next' = cc in
            rw (start, here, procflow_cleanup)
              (ap (λ q. some (true, taken l p q s.pf_next s)) head_same
                ∙ ap (λ f. some (true, taken l p head' f s)) next_same)
        | inr later ↦
            let e2 = sym (walk-seek fuel (some h) s.pf_next h p) ∙ (rw (later, unlink) at e') in
            by_seek later (seek fuel s.pf_next (some h) p) refl e2
      ]
    where
      by_seek :
          (p == h) ≡ false
          → (q : Sought) → seek fuel s.pf_next (some h) p ≡ q
          → unlinked_at q (some h) s.pf_next p ≡ unlinked true head' next'
          → procflow_cleanup fuel l p s ≡ some (true, taken l p head' next' s)
      by_seek later not_found place u = absurd cc
      by_seek later no_fuel place u = absurd cc
      by_seek later (found q) place u =
          let head_same : some h ≡ head' = cc in
          let next_same : update s.pf_next q (s.pf_next p) ≡ next' = cc in
          rw (start, later, place, procflow_cleanup)
            (ap (λ c. some (true, taken l p c (update s.pf_next q (s.pf_next p)) s))
                (start ∙ head_same)
              ∙ ap (λ f. some (true, taken l p head' f s)) next_same)
