-- ===== src/Threads/Find.antt =====
-- threadflow_define and threadflow_find of filebench/threadflow.c.
use filebench_pre_fsl.Base.{
  ℕ, zero, suc, ◌+◌, ◌<◌, ◌≡◌, refl, ap, ◌∙◌, ◌≢◌, ◌⊎◌, inl, inr, Option, none, some, List, [], ◌∷◌,
  update, update_same, update_other, All, arith,
}
use filebench_pre_fsl.Ipc.{threadflow, filebench_sizes, Shm, mark, ipc_malloc}
use filebench_pre_fsl.Ipc.Alloc.{Full, malloc_cases, malloc_full}
use filebench_pre_fsl.Vars.{Str}
use filebench_pre_fsl.Vars.Find.{strcmp_refl, strcmp_differ}
use filebench_pre_fsl.Flows.Chain.{Chain}
use filebench_pre_fsl.Threads.{
  Threadflow, Threads, flow_master, inherited, threadflow_define_common, set_instances,
  threadflow_define, threadflow_find,
}
use filebench_pre_fsl.Threads.Init.Workers.{InUse}

module _ {R Q : Type 0} where
  -- The search sees the names and links of the list only.
  find_kept :
      (fuel : ℕ) (name : Str) (head : Option ℕ) (s u : Threads R Q) (list : List ℕ)
      → Chain s.tf_next head list
      → All
          (λ b.
            (u.tf_next b ≡ s.tf_next b)
            × ((u.shm_threadflow b).tf_name ≡ (s.shm_threadflow b).tf_name))
          list
      → threadflow_find fuel head name u ≡ threadflow_find fuel head name s
  unfolding threadflow_find
  find_kept fuel name head s u [] c same = rw (c, threadflow_find) refl
  find_kept zero name head s u (b ∷ list) c same = rw (c.0, threadflow_find) refl
  find_kept (suc fuel) name head s u (b ∷ list) c same =
      rw
        (
          c.0,
          same.0.0,
          same.0.1,
          find_kept fuel name (s.tf_next b) s u list c.1 same.1,
          threadflow_find,
        )
        refl

  module _ (zeros : R) (p : ℕ) (name : Str) (inherit instances head : Option ℕ)
      (s : Threads R Q) where
    abbrev define : Option ℕ × Option ℕ × Threads R Q
    define = threadflow_define zeros p (some name) inherit instances head s

    common : ℕ → Threads R Q
    common t = record s {
      flows = record s.flows { ipc = mark s.flows.ipc threadflow t };
      shm_threadflow = update s.shm_threadflow t (record (inherited zeros inherit p s) {
        tf_utid = s.shm_utid + 1;
        tf_instance = flow_master;
        tf_name = name;
      });
      tf_next = update s.tf_next t head;
      shm_utid = s.shm_utid + 1;
    }

    defined : ℕ → Threads R Q
    defined t = record (common t) {
      shm_threadflow =
          update (common t).shm_threadflow t
            (record ((common t).shm_threadflow t) { tf_instances = instances });
    }

    common_by :
        (t : ℕ)
        → ipc_malloc s.flows.ipc threadflow ≡ (some t, mark s.flows.ipc threadflow t)
        → threadflow_define_common zeros p (some name) inherit flow_master head s
          ≡ (some t, some t, common t)
    unfolding threadflow_define_common common
    common_by t e = rw (e, ap (λ (r : Option ℕ × Shm). r.1) e, threadflow_define_common) refl

    common_full :
        (ipc_malloc s.flows.ipc threadflow).0 ≡ none
        → threadflow_define_common zeros p (some name) inherit flow_master head s ≡ (none, head, s)
    unfolding threadflow_define_common
    common_full e = rw (e, threadflow_define_common) refl

    -- What threadflow_find gives after threadflow_define: the new threadflow for its name, and what
    -- it gave before for others.
    pub record Found (t : ℕ) (u : Threads R Q) : Type 0 where
      pub this : (fuel : ℕ) → threadflow_find (suc fuel) (some t) name u ≡ some (some t)
      pub others :
          (fuel : ℕ) (other : Str)
          → other ≢ name
          → threadflow_find (suc fuel) (some t) other u ≡ threadflow_find fuel head other s

    defined-Found :
        (t : ℕ) (list : List ℕ)
        → s.flows.ipc.bitmap threadflow t ≡ 0
        → Chain s.tf_next head list
        → All (InUse s) list
        → Found t (defined t)
    unfolding threadflow_find defined common
    defined-Found t list free c used = record {
      this = λ fuel. rw (named, strcmp_refl name, threadflow_find) refl;
      others = λ fuel other ne.
          rw (named, strcmp_differ other name ne, update_same s.tf_next t head, threadflow_find)
            (find_kept fuel other head s (defined t) list c (kept list used));
    }
      where
        named : ((defined t).shm_threadflow t).tf_name ≡ name
        named =
            ap (λ (th : Threadflow R). th.tf_name) (update_same (common t).shm_threadflow t _)
            ∙ ap (λ (th : Threadflow R). th.tf_name) (update_same s.shm_threadflow t _)

        kept :
            (xs : List ℕ)
            → All (InUse s) xs
            → All
                (λ b.
                  ((defined t).tf_next b ≡ s.tf_next b)
                  × (((defined t).shm_threadflow b).tf_name ≡ (s.shm_threadflow b).tf_name))
                xs
        kept [] h = tt
        kept (b ∷ xs) h =
            let ne : b ≢ t = λ e.
              let clash : s.flows.ipc.bitmap threadflow b ≡ 0 =
                ap (s.flows.ipc.bitmap threadflow) e ∙ free in
              let taken : s.flows.ipc.bitmap threadflow b ≡ 1 = h.0 in omega arith in
            (
              (
                update_other s.tf_next t b head ne,
                ap (λ (th : Threadflow R). th.tf_name)
                    (update_other (common t).shm_threadflow t b _ ne
                      ∙ update_other s.shm_threadflow t b _ ne),
              ),
              kept xs h.1,
            )

    -- Where the process's threadflows are a chain of slots in use, either every slot but the one
    -- handed out last is taken, and threadflow_define changes nothing; or it puts a new threadflow at the head of the list, and
    -- threadflow_find then gives this one for its name, and for every other name what it gave
    -- before.
    pub threadflow_find-threadflow_define :
        (list : List ℕ)
        → s.flows.ipc.last threadflow < filebench_sizes s.flows.ipc.memsize threadflow
        → Chain s.tf_next head list
        → All (InUse s) list
        → ((define ≡ (none, head, s)) × Full s.flows.ipc threadflow)
          ⊎ ((t : ℕ) × (u : Threads R Q) × (define ≡ (some t, some t, u)) × Found t u)
    unfolding threadflow_define set_instances defined
    threadflow_find-threadflow_define list lt c used =
        elim (malloc_cases s.flows.ipc threadflow lt) [
          | inl full ↦ inl (
            ap (set_instances instances) (common_full (ap (λ (r : Option ℕ × Shm). r.0) full)),
            malloc_full s.flows.ipc threadflow lt full,
          )
          | inr (t, e, _, free) ↦ inr (
            t,
            defined t,
            ap (set_instances instances) (common_by t e),
            defined-Found t list free c used,
          )
        ]
