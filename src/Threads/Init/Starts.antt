-- ===== src/Threads/Init/Starts.antt =====
-- A list of workers, started one after the other.
use filebench_pre_fsl.Base.{ℕ, ◌<◌, refl, sym, ap, inl, inr, Bool, Option, List, [], ◌∷◌, ◌++◌, All}
use mathlib.Core.Path.{subst}
use filebench_pre_fsl.Ipc.{threadflow, filebench_sizes}
use filebench_pre_fsl.Flows.Chain.{Chain, first}
use filebench_pre_fsl.Threads.{Threads}
use filebench_pre_fsl.Threads.Init.{Init, inited, and_then, start_one}
use filebench_pre_fsl.Threads.Init.Jobs.{Job}
use filebench_pre_fsl.Threads.Init.One.{Started, start_one_outcome}
use filebench_pre_fsl.Threads.Init.Workers.{
  InUse, Starts, all_started, some_started, stopped, none_started, Masters, Started-kept,
  Started-used, Started-in_map, Started-chain, Started-Workers,
}

module _ {R Q : Type 0} where
  module _ (memsize : R → ℕ) (creates : ℕ → Bool) (zeros : R) (p : ℕ) where
    -- The jobs one after the other.
    unfoldable pub start_jobs : List Job → Option ℕ → Threads R Q → Init R Q
    start_jobs [] head s = inited head s
    start_jobs ((m, i) ∷ jobs) head s =
        and_then (start_one memsize creates zeros p m i head s) (start_jobs jobs)

    front :
        (s : Threads R Q) (part rest : List Job)
        → Masters memsize p s (part ++ rest)
        → Masters memsize p s part
    front s [] rest h = tt
    front s (j ∷ part) rest h = (h.0, front s part rest h.1)

    -- The workers of the rest, after one more.
    Started-Starts :
        (s u : Threads R Q) (m i t : ℕ) (jobs : List Job) (ys : List ℕ) (r : Init R Q)
        → Masters memsize p s jobs
        → Started memsize p s u m i t (first ys)
        → Starts memsize creates p u jobs (t ∷ ys) r
        → Starts memsize creates p s ((m, i) ∷ jobs) ys r
    Started-Starts s u m i t jobs ys r used st (all_started v ns e w) =
        all_started v (t ∷ ns) e (Started-Workers memsize p s u v m i t ns ys jobs used st w)
    Started-Starts s u m i t jobs ys r used st (some_started v ns part rest e cut ne full w) =
        some_started v (t ∷ ns) ((m, i) ∷ part) rest e (ap (λ js. (m, i) ∷ js) cut) ne full (
          Started-Workers memsize p s u v m i t ns ys part
            (front s part rest (subst (Masters memsize p s) cut used)) st w)
    Started-Starts s u m i t jobs ys r used st (stopped v ns part rest t' e cut ne free fails w) =
        stopped v (t ∷ ns) ((m, i) ∷ part) rest t' e (ap (λ js. (m, i) ∷ js) cut) ne free fails (
          Started-Workers memsize p s u v m i t ns ys part
            (front s part rest (subst (Masters memsize p s) cut used)) st w)

    pub All-kept :
        (s u : Threads R Q) (list : List ℕ)
        → ((b : ℕ) → InUse s b → InUse u b)
        → All (InUse s) list
        → All (InUse u) list
    All-kept s u [] f h = tt
    All-kept s u (b ∷ list) f h = (f b h.0, All-kept s u list f h.1)

    Masters-kept :
        (s u : Threads R Q) (jobs : List Job)
        → ((b : ℕ) → InUse s b → InUse u b)
        → Masters memsize p s jobs
        → Masters memsize p u jobs
    Masters-kept s u [] f h = tt
    Masters-kept s u (j ∷ jobs) f h = (f j.0 h.0, Masters-kept s u jobs f h.1)

    pub start_jobs-Starts :
        (jobs : List Job) (s : Threads R Q) (ys : List ℕ)
        → s.flows.ipc.last threadflow < filebench_sizes s.flows.ipc.memsize threadflow
        → All (InUse s) ys
        → Chain s.tf_next (first ys) ys
        → Masters memsize p s jobs
        → Starts memsize creates p s jobs ys (start_jobs jobs (first ys) s)
    unfolding start_jobs
    start_jobs-Starts [] s ys lt uy c used =
        all_started s [] refl (none_started memsize p s ys lt uy c)
    start_jobs-Starts ((m, i) ∷ jobs) s ys lt uy c used =
        elim (start_one_outcome memsize creates zeros p m i (first ys) s lt) [
          | inl (refused, full) ↦
              some_started s [] [] ((m, i) ∷ jobs) (ap (λ r. and_then r (start_jobs jobs)) refused)
                refl (λ e. cc) full (none_started memsize p s ys lt uy c)
          | inr other ↦ elim other [
            | inl (t, fails, e, free) ↦
                stopped s [] [] ((m, i) ∷ jobs) t (ap (λ r. and_then r (start_jobs jobs)) e) refl
                  (λ eq. cc) free fails (none_started memsize p s ys lt uy c)
            | inr (t, u, e, st) ↦
                let kept =
                  λ (b : ℕ) (h : InUse s b). (Started-kept memsize p s u m i t ys st b h).0 in
                Started-Starts s u m i t jobs ys _ used.1 st (
                  subst (Starts memsize creates p u jobs (t ∷ ys))
                    (sym (ap (λ r. and_then r (start_jobs jobs)) e))
                    (start_jobs-Starts jobs u (t ∷ ys) (Started-in_map memsize p s u m i t ys st lt)
                      (Started-used memsize p s u m i t ys st, All-kept s u ys kept uy)
                      (Started-chain memsize p s u m i t ys st uy c)
                      (Masters-kept s u jobs kept used.1)))
          ]
        ]
