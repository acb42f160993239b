-- ===== src/Threads/Init/Jobs.antt =====
-- The workers that threadflow_init is to make, as a list of masters and instances.
use filebench_pre_fsl.Base.{
  ℕ, ◌+◌, ◌%◌, ◌^◌, ◌≡◌, refl, ap, ◌∙◌, inl, inr, List, [], ◌∷◌, if◌then◌else◌, All, Bool-cases,
  arith,
}
use native.Mathlib.Nat.{mod-add-mod}
use filebench_pre_fsl.Threads.{Threadflow}
use filebench_pre_fsl.Threads.Init.One.{worker, charged}

-- A master and the number of an instance.
abbrev pub Job : Type 0
Job = ℕ × ℕ

module _ {R : Type 0} where
  -- Each slot of a list is a worker for the job at its place, with the next number.
  abbrev pub Match :
      (R → ℕ)
      → (process : ℕ) → (then' now : ℕ → Threadflow R) → (utid : ℕ) → (ns : List ℕ) → List Job
      → Type 0
  Match memsize p then' now utid [] [] = Unit
  Match memsize p then' now utid (n ∷ ns) ((m, i) ∷ jobs) =
      (now n ≡ worker memsize p (then' m) i (utid + 1))
      × Match memsize p then' now (utid + 1) ns jobs
  Match memsize p then' now utid _ _ = ⊥

  -- The memory that the jobs' threads require of the shared region.
  abbrev pub demand : (R → ℕ) → (ℕ → Threadflow R) → List Job → ℕ
  demand memsize then' [] = 0
  demand memsize then' ((m, i) ∷ jobs) =
      (if (then' m).tf_useism then memsize (then' m).rest else 0) + demand memsize then' jobs

  module _ (memsize : R → ℕ) (p : ℕ) where
    pub Match-then :
        (then' then'' now : ℕ → Threadflow R) (utid : ℕ) (ns : List ℕ) (jobs : List Job)
        → All (λ (j : Job). then'' j.0 ≡ then' j.0) jobs
        → Match memsize p then'' now utid ns jobs
        → Match memsize p then' now utid ns jobs
    Match-then then' then'' now utid [] [] same h = tt
    Match-then then' then'' now utid [] (j ∷ jobs) same h = h
    Match-then then' then'' now utid (n ∷ ns) [] same h = h
    Match-then then' then'' now utid (n ∷ ns) (j ∷ jobs) same h = (
      h.0 ∙ ap (λ m. worker memsize p m j.1 (utid + 1)) (same.0),
      Match-then then' then'' now (utid + 1) ns jobs same.1 h.1,
    )

  module _ (memsize : R → ℕ) where
    pub demand_same :
        (then' then'' : ℕ → Threadflow R) (jobs : List Job)
        → All (λ (j : Job). then'' j.0 ≡ then' j.0) jobs
        → demand memsize then'' jobs ≡ demand memsize then' jobs
    demand_same then' then'' [] same = refl
    demand_same then' then'' (j ∷ jobs) same =
        rw (same.0, demand_same then' then'' jobs same.1) refl

    pub charged_demand :
        (m : Threadflow R) (required rest : ℕ)
        → (charged memsize m required + rest) % 2 ^ 64
          ≡ (required + ((if m.tf_useism then memsize m.rest else 0) + rest)) % 2 ^ 64
    charged_demand m required rest = elim (Bool-cases m.tf_useism) [
      | inl h ↦ rw h (
          mod-add-mod (required + memsize m.rest) (2 ^ 64) rest
          ∙ ap (λ (n : ℕ). n % 2 ^ 64) (omega arith))
      | inr h ↦ rw h (ap (λ (n : ℕ). n % 2 ^ 64) (omega arith))
    ]
