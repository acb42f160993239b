-- ===== src/Threads/Init/Loop.antt =====
-- threadflow_init of filebench/threadflow.c, against the workers for the masters of a plain list.
use filebench_pre_fsl.Base.{
  ℕ, zero, suc, ◌+◌, ◌-◌, ◌<◌, ◌≤◌, ◌≡◌, refl, sym, ap, ◌∙◌, Bool, Option, List, [], ◌∷◌, ◌++◌,
  length, All, arith,
}
use mathlib.Core.Path.{subst}
use filebench_pre_fsl.Ipc.{threadflow, filebench_sizes}
use filebench_pre_fsl.Flows.Chain.{Chain, first, Chain-first}
use filebench_pre_fsl.Flows.Runtime.Made.{onto, All-map, All-both, Chain-same}
use filebench_pre_fsl.Threads.{Threadflow, Threads}
use filebench_pre_fsl.Threads.Init.{
  int_value, Init, inited, no_slot, shut_down, out_of_fuel, and_then, start_one, start_rest,
  start_instances, start_from, threadflow_init,
}
use filebench_pre_fsl.Threads.Init.Jobs.{Job}
use filebench_pre_fsl.Threads.Init.Workers.{
  InUse, Workers, Starts, all_started, some_started, stopped, Masters,
}
use filebench_pre_fsl.Threads.Init.Starts.{start_jobs, start_jobs-Starts}

-- The instances of a master from the one after `i` on.
abbrev pub rest_jobs : (left i m : ℕ) → List Job
rest_jobs zero i m = []
rest_jobs (suc left) i m = (m, i + 1) ∷ rest_jobs left (i + 1) m

-- Each master's instances, the first one last.
abbrev pub all_jobs : (count : ℕ → ℕ) → List ℕ → List Job
all_jobs count [] = []
all_jobs count (m ∷ list) = (rest_jobs (count m - 1) 1 m ++ ((m, 1) ∷ [])) ++ all_jobs count list

module _ {R Q : Type 0} where
  and_then_same :
      (r : Init R Q) (f g : Option ℕ → Threads R Q → Init R Q)
      → ((head : Option ℕ) (u : Threads R Q) → f head u ≡ g head u)
      → and_then r f ≡ and_then r g
  and_then_same (inited head u) f g h = h head u
  and_then_same (no_slot head u) f g h = refl
  and_then_same shut_down f g h = refl
  and_then_same out_of_fuel f g h = refl

  and_then_assoc :
      (r : Init R Q) (f g : Option ℕ → Threads R Q → Init R Q)
      → and_then (and_then r f) g ≡ and_then r (λ head u. and_then (f head u) g)
  and_then_assoc (inited head u) f g = refl
  and_then_assoc (no_slot head u) f g = refl
  and_then_assoc shut_down f g = refl
  and_then_assoc out_of_fuel f g = refl

  and_then_inited : (r : Init R Q) → and_then r inited ≡ r
  and_then_inited (inited head u) = refl
  and_then_inited (no_slot head u) = refl
  and_then_inited shut_down = refl
  and_then_inited out_of_fuel = refl

  module _ (memsize : R → ℕ) (creates : ℕ → Bool) (zeros : R) (p : ℕ) where
    -- Two ways to go on that agree where all workers were started.
    and_then_all :
        (s : Threads R Q) (jobs : List Job) (ys : List ℕ) (r : Init R Q)
        (f g : Option ℕ → Threads R Q → Init R Q)
        → Starts memsize creates p s jobs ys r
        → ((u : Threads R Q) (ns : List ℕ)
            → Workers memsize p s u ns jobs ys
            → f (first (onto ns ys)) u ≡ g (first (onto ns ys)) u)
        → and_then r f ≡ and_then r g
    and_then_all s jobs ys r f g (all_started u ns e w) h =
        ap (λ x. and_then x f) e ∙ h u ns w ∙ sym (ap (λ x. and_then x g) e)
    and_then_all s jobs ys r f g (some_started u ns part rest e cut ne full w) h =
        ap (λ x. and_then x f) e ∙ sym (ap (λ x. and_then x g) e)
    and_then_all s jobs ys r f g (stopped u ns part rest t e cut ne free fails w) h =
        ap (λ x. and_then x f) e ∙ sym (ap (λ x. and_then x g) e)

    start_jobs-append :
        (xs ys : List Job) (head : Option ℕ) (s : Threads R Q)
        → start_jobs memsize creates zeros p (xs ++ ys) head s
          ≡ and_then
              (start_jobs memsize creates zeros p xs head s)
              (start_jobs memsize creates zeros p ys)
    unfolding start_jobs
    start_jobs-append [] ys head s = refl
    start_jobs-append ((m, i) ∷ xs) ys head s =
        and_then_same (start_one memsize creates zeros p m i head s) _ _ (start_jobs-append xs ys)
        ∙ sym (and_then_assoc (start_one memsize creates zeros p m i head s) _ _)

    start_rest_lem :
        (left i m : ℕ) (head : Option ℕ) (s : Threads R Q)
        → start_rest memsize creates zeros p left i m head s
          ≡ start_jobs memsize creates zeros p (rest_jobs left i m) head s
    unfolding start_rest start_jobs
    start_rest_lem zero i m head s = refl
    start_rest_lem (suc left) i m head s =
        and_then_same (start_one memsize creates zeros p m (i + 1) head s) _ _
          (start_rest_lem left (i + 1) m)

    module _ (instances : Option ℕ → ℕ) where
      start_instances_lem :
          (m : ℕ) (head : Option ℕ) (s : Threads R Q)
          → start_instances memsize creates zeros p instances m head s
            ≡ start_jobs memsize creates zeros p
                (rest_jobs (int_value (instances (s.shm_threadflow m).tf_instances) - 1) 1 m
                  ++ ((m, 1) ∷ []))
                head
                s
      unfolding start_instances start_jobs
      start_instances_lem m head s =
          let left = int_value (instances (s.shm_threadflow m).tf_instances) - 1 in
          ap (λ r. and_then r (start_one memsize creates zeros p m 1))
            (start_rest_lem left 1 m head s)
          ∙ and_then_same (start_jobs memsize creates zeros p (rest_jobs left 1 m) head s) _ _
              (λ head' u. sym (and_then_inited (start_one memsize creates zeros p m 1 head' u)))
          ∙ sym (start_jobs-append (rest_jobs left 1 m) ((m, 1) ∷ []) head s)

      Masters-instances :
          (s : Threads R Q) (left i m : ℕ)
          → InUse s m
          → Masters memsize p s (rest_jobs left i m ++ ((m, 1) ∷ []))
      Masters-instances s zero i m used = (used, tt)
      Masters-instances s (suc left) i m used = (used, Masters-instances s left (i + 1) m used)

      Masters-jobs :
          (s : Threads R Q) (count : ℕ → ℕ) (list : List ℕ)
          → All (InUse s) list
          → Masters memsize p s (all_jobs count list)
      Masters-jobs s count [] used = tt
      Masters-jobs s count (m ∷ list) used =
          Masters-append (rest_jobs (count m - 1) 1 m ++ ((m, 1) ∷ [])) (all_jobs count list)
            (Masters-instances s (count m - 1) 1 m used.0) (Masters-jobs s count list used.1)
        where
          Masters-append :
              (xs ys : List Job)
              → Masters memsize p s xs
              → Masters memsize p s ys
              → Masters memsize p s (xs ++ ys)
          Masters-append [] ys h k = k
          Masters-append (x ∷ xs) ys h k = (h.0, Masters-append xs ys h.1 k)

      start_from_lem :
          (fuel : ℕ) (count : ℕ → ℕ) (list ys : List ℕ) (s : Threads R Q)
          → length list ≤ fuel
          → s.flows.ipc.last threadflow < filebench_sizes s.flows.ipc.memsize threadflow
          → All (InUse s) list
          → All (InUse s) ys
          → All (λ m. int_value (instances (s.shm_threadflow m).tf_instances) ≡ count m) list
          → Chain s.tf_next (first list) list
          → Chain s.tf_next (first ys) ys
          → start_from memsize creates zeros p instances fuel (first list) (first ys) s
            ≡ start_jobs memsize creates zeros p (all_jobs count list) (first ys) s
      unfolding start_from start_jobs
      start_from_lem fuel count [] ys s lf lt ul uy counts c cy = refl
      start_from_lem zero count (m ∷ list) ys s lf lt ul uy counts c cy = absurd (omega arith)
      start_from_lem (suc fuel) count (m ∷ list) ys s lf lt ul uy counts c cy =
          let jobs = rest_jobs (count m - 1) 1 m ++ ((m, 1) ∷ []) in
          let rest = λ (head' : Option ℕ) (u : Threads R Q).
            start_from memsize creates zeros p instances fuel (u.tf_next m) head' u in
          let begun =
            start_instances_lem m (first ys) s
            ∙ ap
                (λ n.
                  start_jobs memsize creates zeros p (rest_jobs (n - 1) 1 m ++ ((m, 1) ∷ []))
                    (first ys) s)
                (counts.0) in
          ap (λ r. and_then r rest) begun
          ∙ and_then_all s jobs ys _ rest (start_jobs memsize creates zeros p (all_jobs count list))
              (start_jobs-Starts memsize creates zeros p jobs s ys lt uy cy
                (Masters-instances s (count m - 1) 1 m ul.0))
              (λ u ns w.
                ap (λ h. start_from memsize creates zeros p instances fuel h (first (onto ns ys)) u)
                  ((w.kept m ul.0).2 ∙ starts)
                ∙ start_from_lem fuel count list (onto ns ys) u (omega arith) w.in_map
                    (All-map (InUse s) (InUse u) list (λ b h. (w.kept b h).0) ul.1) w.used
                    (All-both (InUse s)
                      (λ b. int_value (instances (s.shm_threadflow b).tf_instances) ≡ count b)
                      (λ b. int_value (instances (u.shm_threadflow b).tf_instances) ≡ count b) list
                      (λ b h k.
                        ap (λ (th : Threadflow R). int_value (instances th.tf_instances))
                          (w.kept b h).1
                        ∙ k)
                      ul.1 counts.1)
                    (Chain-same s.tf_next u.tf_next (first list) list
                      (All-map (InUse s) (λ b. u.tf_next b ≡ s.tf_next b) list
                        (λ b h. (w.kept b h).2) ul.1)
                      (subst (λ h. Chain s.tf_next h list) starts c.1))
                    w.chain)
          ∙ sym (start_jobs-append jobs (all_jobs count list) (first ys) s)
        where
          starts : s.tf_next m ≡ first list
          starts = Chain-first s.tf_next (s.tf_next m) list c.1

      -- Where the process's threadflows are a chain of slots in use, threadflow_init ends its first
      -- loop within the fuel of the list's length. For each master it starts as many workers as
      -- tf_instances says as an int, and one where it says none: each is a copy of the master with the
      -- process, its instance and the next tf_utid, and they stand before the masters in the list,
      -- the last one first; shm_required grows by the memory of those that use the shared region.
      -- Slots that were in use stay as they were. Or no slot is left (all but the one handed out
      -- last are taken), with those of a first part started; or, these started, the thread of the
      -- next worker, in a slot that was free, could not be created, and the run ends.
      pub threadflow_init-Starts :
          (fuel : ℕ) (list : List ℕ) (head : Option ℕ) (s : Threads R Q)
          → length list ≤ fuel
          → s.flows.ipc.last threadflow < filebench_sizes s.flows.ipc.memsize threadflow
          → All (InUse s) list
          → Chain s.tf_next head list
          → Starts memsize creates p s
              (all_jobs (λ m. int_value (instances (s.shm_threadflow m).tf_instances)) list)
              list
              (threadflow_init memsize creates zeros p instances fuel head s)
      unfolding threadflow_init
      threadflow_init-Starts fuel list head s lf lt used c =
          let count = λ (m : ℕ). int_value (instances (s.shm_threadflow m).tf_instances) in
          let starts = Chain-first s.tf_next head list c in
          let chain = subst (λ h. Chain s.tf_next h list) starts c in
          subst (Starts memsize creates p s (all_jobs count list) list)
            (sym (
              ap (λ h. start_from memsize creates zeros p instances fuel h h s) starts
              ∙ start_from_lem fuel count list list s lf lt used used (same list) chain chain))
            (start_jobs-Starts memsize creates zeros p (all_jobs count list) s list lt used chain
              (Masters-jobs s count list used))
        where
          same :
              (xs : List ℕ)
              → All
                  (λ m.
                    int_value (instances (s.shm_threadflow m).tf_instances)
                    ≡ int_value (instances (s.shm_threadflow m).tf_instances))
                  xs
          same [] = tt
          same (x ∷ xs) = (refl, same xs)
