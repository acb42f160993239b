-- ===== src/Threads/Init/One.antt =====
-- One thread that threadflow_init starts.
use filebench_pre_fsl.Base.{
  ℕ, ◌+◌, ◌%◌, ◌^◌, ◌<◌, ◌≡◌, refl, ap, ◌∙◌, ◌≢◌, ◌⊎◌, inl, inr, Bool, false, Option, none, some,
  if◌then◌else◌, update, update_same, update_other, Bool-cases,
}
use filebench_pre_fsl.Base.Int.{pos}
use filebench_pre_fsl.Ipc.{threadflow, filebench_sizes, Shm, mark, ipc_malloc}
use filebench_pre_fsl.Ipc.Alloc.{Full, malloc_cases, malloc_full}
use filebench_pre_fsl.Threads.{Threadflow, Threads, inherited, threadflow_define_common}
use filebench_pre_fsl.Threads.Init.{
  Init, inited, no_slot, shut_down, threadflow_createthread, create_thread, start_one,
}

-- The threadflow of an instance of `m`.
abbrev pub worker :
    {R : Type 0} → (R → ℕ) → (process : ℕ) → Threadflow R → (instance utid : ℕ) → Threadflow R
worker memsize p m i utid = record m {
  tf_process = p;
  tf_utid = utid;
  tf_instance = pos i;
  tf_constmemsize = memsize m.rest;
}

-- shm_required with the memory of a threadflow.
abbrev pub charged : {R : Type 0} → (R → ℕ) → Threadflow R → ℕ → ℕ
charged memsize m required = if m.tf_useism then (required + memsize m.rest) % 2 ^ 64 else required

module _ {R Q : Type 0} (memsize : R → ℕ) (p : ℕ) where
  -- What starting the instance `i` of `m` as `t` does.
  pub record Started (s u : Threads R Q) (m i t : ℕ) (head : Option ℕ) : Type 0 where
    pub free : s.flows.ipc.bitmap threadflow t ≡ 0
    pub below : t < filebench_sizes s.flows.ipc.memsize threadflow
    pub ipc : u.flows.ipc ≡ mark s.flows.ipc threadflow t
    pub new : u.shm_threadflow t ≡ worker memsize p (s.shm_threadflow m) i (s.shm_utid + 1)
    pub next : u.tf_next ≡ update s.tf_next t head
    pub utid : u.shm_utid ≡ s.shm_utid + 1
    pub required : u.shm_required ≡ charged memsize (s.shm_threadflow m) s.shm_required
    pub others : (b : ℕ) → b ≢ t → u.shm_threadflow b ≡ s.shm_threadflow b

module _ {R Q : Type 0} (memsize : R → ℕ) (creates : ℕ → Bool) (zeros : R) (p : ℕ) where
  module _ (m i : ℕ) (head : Option ℕ) (s : Threads R Q) where
    abbrev defined : ℕ → Threads R Q
    defined t = record s {
      flows = record s.flows { ipc = mark s.flows.ipc threadflow t };
      shm_threadflow = update s.shm_threadflow t (record (s.shm_threadflow m) {
        tf_process = p;
        tf_utid = s.shm_utid + 1;
        tf_instance = pos i;
      });
      tf_next = update s.tf_next t head;
      shm_utid = s.shm_utid + 1;
    }

    define_new :
        (t : ℕ)
        → ipc_malloc s.flows.ipc threadflow ≡ (some t, mark s.flows.ipc threadflow t)
        → threadflow_define_common zeros p
            (some (s.shm_threadflow m).tf_name)
            (some m)
            (pos i)
            head
            s
          ≡ (some t, some t, defined t)
    unfolding threadflow_define_common inherited
    define_new t e = rw (e, ap (λ (r : Option ℕ × Shm). r.1) e, threadflow_define_common) refl

    define_full :
        (ipc_malloc s.flows.ipc threadflow).0 ≡ none
        → threadflow_define_common zeros p
            (some (s.shm_threadflow m).tf_name)
            (some m)
            (pos i)
            head
            s
          ≡ (none, head, s)
    unfolding threadflow_define_common
    define_full e = rw (e, threadflow_define_common) refl

    started : ℕ → Threads R Q
    started t =
        let th = (defined t).shm_threadflow t in
        record (defined t) {
          shm_threadflow =
              update (defined t).shm_threadflow t (record th { tf_constmemsize = memsize th.rest });
          shm_required =
              if th.tf_useism then (s.shm_required + memsize th.rest) % 2 ^ 64 else s.shm_required;
        }

    abbrev one : Init R Q
    one = start_one memsize creates zeros p m i head s

    started-Started :
        (t : ℕ)
        → s.flows.ipc.bitmap threadflow t ≡ 0
        → t < filebench_sizes s.flows.ipc.memsize threadflow
        → Started memsize p s (started t) m i t head
    unfolding started
    started-Started t free below = record {
      free = free;
      below = below;
      ipc = refl;
      new =
          update_same (defined t).shm_threadflow t _
          ∙ ap (λ (th : Threadflow R). record th { tf_constmemsize = memsize th.rest })
              (update_same s.shm_threadflow t _);
      next = refl;
      utid = refl;
      required =
          ap
            (λ (th : Threadflow R).
              if th.tf_useism then (s.shm_required + memsize th.rest) % 2 ^ 64 else s.shm_required)
            (update_same s.shm_threadflow t _);
      others = λ b ne.
          update_other (defined t).shm_threadflow t b _ ne ∙ update_other s.shm_threadflow t b _ ne;
    }

    -- No slot is left, no thread can be created, or one more.
    pub start_one_outcome :
        s.flows.ipc.last threadflow < filebench_sizes s.flows.ipc.memsize threadflow
        → ((one ≡ no_slot head s) × Full s.flows.ipc threadflow)
          ⊎ (((t : ℕ) × (creates t ≡ false)
                × (one ≡ shut_down)
                × (s.flows.ipc.bitmap threadflow t ≡ 0))
              ⊎ ((t : ℕ) × (u : Threads R Q) × (one ≡ inited (some t) u)
                  × Started memsize p s u m i t head))
    unfolding start_one create_thread threadflow_createthread started
    start_one_outcome lt =
        let create = create_thread memsize creates in
        elim (malloc_cases s.flows.ipc threadflow lt) [
          | inl full ↦ inl (
            ap create (define_full (ap (λ (r : Option ℕ × Shm). r.0) full)),
            malloc_full s.flows.ipc threadflow lt full,
          )
          | inr (t, e, below, free) ↦ elim (Bool-cases (creates t)) [
            | inl yes' ↦
                let made : create (some t, some t, defined t) ≡ inited (some t) (started t) =
                  rw (yes', create_thread) refl in
                inr (
                  inr
                    (t, started t, ap create (define_new t e) ∙ made, started-Started t free below))
            | inr no' ↦
                let fails : create (some t, some t, defined t) ≡ shut_down =
                  rw (no', create_thread) refl in
                inr (inl (t, no', ap create (define_new t e) ∙ fails, free))
          ]
        ]
