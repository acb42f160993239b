-- ===== src/Threads/Init/Workers.antt =====
-- The threads that threadflow_init starts, as a list of masters and instances.
use filebench_pre_fsl.Base.{
  ℕ, ◌+◌, ◌%◌, ◌^◌, ◌<◌, ◌≡◌, refl, sym, ap, ◌∙◌, ◌≢◌, Bool, false, Option, some, List, [], ◌∷◌,
  ◌++◌, update_same, update_other, All, arith,
}
use mathlib.Core.Path.{subst}
use filebench_pre_fsl.Ipc.{threadflow, filebench_sizes, Shm, mark}
use filebench_pre_fsl.Ipc.Alloc.{Full}
use filebench_pre_fsl.Vars.Inv.Alloc.{mark-taken, mark-in_map, mark-used}
use filebench_pre_fsl.Flows.Chain.{Chain, Without, first, Chain-update}
use filebench_pre_fsl.Flows.Runtime.Made.{onto}
use filebench_pre_fsl.Threads.{Threads}
use filebench_pre_fsl.Threads.Init.{Init, inited, no_slot, shut_down}
use filebench_pre_fsl.Threads.Init.Jobs.{
  Job, Match, demand, Match-then, demand_same, charged_demand,
}
use filebench_pre_fsl.Threads.Init.One.{Started}

module _ {R Q : Type 0} where
  abbrev pub InUse : Threads R Q → ℕ → Type 0
  InUse s t = s.flows.ipc.bitmap threadflow t ≡ 1

  -- The workers of the jobs stand before the list `ys`, the last one first; slots that were in use
  -- and their links are as they were.
  pub record Workers (memsize : R → ℕ) (p : ℕ) (s u : Threads R Q) (ns : List ℕ) (jobs : List Job)
      (ys : List ℕ) : Type 0 where
    pub chain : Chain u.tf_next (first (onto ns ys)) (onto ns ys)
    pub workers : Match memsize p s.shm_threadflow u.shm_threadflow s.shm_utid ns jobs
    pub kept :
        (b : ℕ)
        → InUse s b
        → InUse u b × (u.shm_threadflow b ≡ s.shm_threadflow b) × (u.tf_next b ≡ s.tf_next b)
    pub required :
        u.shm_required % 2 ^ 64 ≡ (s.shm_required + demand memsize s.shm_threadflow jobs) % 2 ^ 64
    pub used : All (InUse u) (onto ns ys)
    pub in_map : u.flows.ipc.last threadflow < filebench_sizes u.flows.ipc.memsize threadflow

  -- All workers; or those of a first part of the jobs where no slot is left; or the end of the
  -- run, where the thread of the next one, in a slot that was free, could not be created.
  pub data Starts (memsize : R → ℕ) (creates : ℕ → Bool) (p : ℕ) (s : Threads R Q) (jobs : List Job)
      (ys : List ℕ) (r : Init R Q) : Type 0 where
    all_started :
        (u : Threads R Q) (ns : List ℕ)
        → r ≡ inited (first (onto ns ys)) u
        → Workers memsize p s u ns jobs ys
        → Starts memsize creates p s jobs ys r
    some_started :
        (u : Threads R Q) (ns : List ℕ) (part rest : List Job)
        → r ≡ no_slot (first (onto ns ys)) u
        → jobs ≡ part ++ rest
        → rest ≢ []
        → Full u.flows.ipc threadflow
        → Workers memsize p s u ns part ys
        → Starts memsize creates p s jobs ys r
    stopped :
        (u : Threads R Q) (ns : List ℕ) (part rest : List Job) (t : ℕ)
        → r ≡ shut_down
        → jobs ≡ part ++ rest
        → rest ≢ []
        → u.flows.ipc.bitmap threadflow t ≡ 0
        → creates t ≡ false
        → Workers memsize p s u ns part ys
        → Starts memsize creates p s jobs ys r

  module _ (memsize : R → ℕ) (p : ℕ) where
    pub none_started :
        (s : Threads R Q) (ys : List ℕ)
        → s.flows.ipc.last threadflow < filebench_sizes s.flows.ipc.memsize threadflow
        → All (InUse s) ys
        → Chain s.tf_next (first ys) ys
        → Workers memsize p s s [] [] ys
    none_started s ys lt used c = record {
      used = used;
      chain = c;
      workers = tt;
      kept = λ b used. (used, refl, refl);
      required = ap (λ (n : ℕ). n % 2 ^ 64) (omega arith);
      in_map = lt;
    }

    free-ne : (s : Threads R Q) (t b : ℕ) → s.flows.ipc.bitmap threadflow t ≡ 0 → InUse s b → b ≢ t
    free-ne s t b free used e =
        let clash : s.flows.ipc.bitmap threadflow b ≡ 0 =
          ap (s.flows.ipc.bitmap threadflow) e ∙ free in
        omega arith

    free-Without :
        (s : Threads R Q) (t : ℕ) (ys : List ℕ)
        → s.flows.ipc.bitmap threadflow t ≡ 0
        → All (InUse s) ys
        → Without t ys
    free-Without s t [] free used = tt
    free-Without s t (y ∷ ys) free used =
        (free-ne s t y free used.0, free-Without s t ys free used.1)

    module _ (s u : Threads R Q) (m i t : ℕ) (ys : List ℕ)
        (st : Started memsize p s u m i t (first ys)) where
      pub Started-kept :
          (b : ℕ)
          → InUse s b
          → InUse u b × (u.shm_threadflow b ≡ s.shm_threadflow b) × (u.tf_next b ≡ s.tf_next b)
      Started-kept b used =
          let ne = free-ne s t b st.free used in
          (
            ap (λ (x : Shm). x.bitmap threadflow b) st.ipc
                ∙ mark-taken s.flows.ipc threadflow threadflow t b used,
            st.others b ne,
            ap (λ (f : ℕ → Option ℕ). f b) st.next ∙ update_other s.tf_next t b (first ys) ne,
          )

      pub Started-used : InUse u t
      Started-used =
          ap (λ (x : Shm). x.bitmap threadflow t) st.ipc ∙ mark-used s.flows.ipc threadflow t

      pub Started-in_map :
          s.flows.ipc.last threadflow < filebench_sizes s.flows.ipc.memsize threadflow
          → u.flows.ipc.last threadflow < filebench_sizes u.flows.ipc.memsize threadflow
      unfolding mark
      Started-in_map lt =
          subst (λ (x : Shm). x.last threadflow < filebench_sizes x.memsize threadflow) (sym st.ipc)
            (mark-in_map s.flows.ipc threadflow threadflow t st.below lt)

      pub Started-chain :
          All (InUse s) ys → Chain s.tf_next (first ys) ys → Chain u.tf_next (some t) (t ∷ ys)
      Started-chain used c =
          subst (λ f. Chain f (some t) (t ∷ ys)) (sym st.next)
            (
              refl,
              rw (update_same s.tf_next t (first ys)) (
                  Chain-update s.tf_next t (first ys) (first ys) ys
                    (free-Without s t ys st.free used) c),
            )

    abbrev pub Masters : Threads R Q → List Job → Type 0
    Masters s jobs = All (λ (j : Job). InUse s j.0) jobs

    -- One more worker before those of the rest.
    pub Started-Workers :
        (s u v : Threads R Q) (m i t : ℕ) (ns ys : List ℕ) (jobs : List Job)
        → Masters s jobs
        → Started memsize p s u m i t (first ys)
        → Workers memsize p u v ns jobs (t ∷ ys)
        → Workers memsize p s v (t ∷ ns) ((m, i) ∷ jobs) ys
    Started-Workers s u v m i t ns ys jobs used st w =
        let kept = Started-kept s u m i t ys st in
        let same =
          All-jobs jobs (λ j. InUse s j.0) (λ j. u.shm_threadflow j.0 ≡ s.shm_threadflow j.0)
            (λ j h. (kept j.0 h).1) used in
        record {
          chain = w.chain;
          workers = (
            (w.kept t (Started-used s u m i t ys st)).1 ∙ st.new,
            Match-then memsize p s.shm_threadflow u.shm_threadflow v.shm_threadflow (s.shm_utid + 1)
                ns jobs same
                (subst (λ k. Match memsize p u.shm_threadflow v.shm_threadflow k ns jobs) st.utid
                  w.workers),
          );
          kept = λ b h. let k = kept b h in let k' = w.kept b k.0 in (k'.0, k'.1 ∙ k.1, k'.2 ∙ k.2);
          required =
              w.required
              ∙ ap (λ n. (u.shm_required + n) % 2 ^ 64)
                  (demand_same memsize s.shm_threadflow u.shm_threadflow jobs same)
              ∙ ap (λ (n : ℕ). (n + demand memsize s.shm_threadflow jobs) % 2 ^ 64) st.required
              ∙ charged_demand memsize (s.shm_threadflow m) s.shm_required
                  (demand memsize s.shm_threadflow jobs);
          used = w.used;
          in_map = w.in_map;
        }
      where
        All-jobs :
            (list : List Job) (P P' : Job → Type 0)
            → ((j : Job) → P j → P' j)
            → All P list
            → All P' list
        All-jobs [] P P' f h = tt
        All-jobs (j ∷ list) P P' f h = (f j h.0, All-jobs list P P' f h.1)
