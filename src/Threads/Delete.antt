-- ===== src/Threads/Delete.antt =====
-- threadflow_delete_all of filebench/threadflow.c, against the threads of a plain list.
use filebench_pre_fsl.Base.{
  ℕ, zero, suc, ◌≤◌, ◌≡◌, refl, sym, ap, ◌∙◌, inl, inr, Bool, true, false, Option, none, some, List,
  [], ◌∷◌, ◌++◌, ◌==◌, if◌then◌else◌, length, length-append, update, update_same, Bool-cases, ◌&&◌,
  not, ◌+◌, ◌-◌, ◌%◌, ◌^◌, Option-cases, if_elim, arith,
}
use filebench_pre_fsl.Base.Int.{ℤ}
use mathlib.Core.Path.{subst, fun_ext}
use filebench_pre_fsl.Ipc.{threadflow, Layout, address, ipc_free}
use filebench_pre_fsl.Flows.{Flows, is_master, unlinked, unlink, flowop_delete_all}
use filebench_pre_fsl.Flows.Chain.{
  Chain, NoDup, remove, first, Chain-first, Chain-tail, NoDup-remove, NoDup-before, remove-append,
}
use filebench_pre_fsl.Flows.Delete.{append-one}
use filebench_pre_fsl.Threads.TakeOut.{taken_out, contains-append}
use filebench_pre_fsl.Threads.{
  Threadflow, Threads, threadflow_kill, release_memory, end_thread, threadflow_delete,
  delete_threads, threadflow_delete_all,
}

-- The masters of a list.
abbrev pub masters : (master : ℕ → Bool) → List ℕ → List ℕ
masters master [] = []
masters master (t ∷ list) = if master t then t ∷ masters master list else masters master list

-- The last update of a place counts.
update-update :
    {A : Type 0} (f : ℕ → A) (a : ℕ) (u v : A) → update (update f a u) a v ≡ update f a v
update-update f a u v =
    fun_ext (λ b. if_elim (λ x. x ≡ update f a v b) (a == b) (λ e. rw e refl) (λ e. rw e refl))

pub update_keeps :
    {A B : Type 0} (g : A → B) (f : ℕ → A) (a b : ℕ) (v : A)
    → g v ≡ g (f a)
    → g (update f a v b) ≡ g (f b)
update_keeps g f a b v h =
    if_elim (λ x. g x ≡ g (f b)) (a == b)
      (λ e. let same : a ≡ b = ground arith in h ∙ ap (λ c. g (f c)) same) (λ _. refl)

module _ {R Q : Type 0} where
  abbrev pub linked : Threads R Q → (ℕ → Option ℕ) → Threads R Q
  linked w next = record w { tf_next = next }

  module _ (reach : ℕ) (l : Layout) (stops : ℕ → Bool) where
    -- What ends one threadflow, but for the links: the flowops of the thread are deleted, its slot is
    -- freed, tf_abort is set and tf_running cleared, the thread is killed where it runs and does not
    -- stop, and memory in the shared region is given back.
    unfoldable pub end_with : (required : ℕ) → ℕ → Threads R Q → Option (Threads R Q)
    end_with required t w =
        let th = w.shm_threadflow t in
        elim (flowop_delete_all reach reach l th.tf_thrd_fops w.flows) [
          | none ↦ none
          | some (fops, flows') ↦ some (record w {
            flows = record flows' {
              ipc = ipc_free l flows'.ipc threadflow (some (address l threadflow t));
            };
            shm_threadflow =
                update w.shm_threadflow t
                  (record th { tf_abort = true; tf_running = false; tf_thrd_fops = fops });
            shm_required = required;
            killed = if th.tf_running && not (stops t) then t ∷ w.killed else w.killed;
          })
        ]

    unfoldable pub end_one : ℕ → Threads R Q → Option (Threads R Q)
    unfolding end_with
    end_one t w =
        let th = w.shm_threadflow t in
        end_with
          (if th.tf_useism
            then (w.shm_required + 2 ^ 64 - th.tf_constmemsize % 2 ^ 64) % 2 ^ 64
            else w.shm_required)
          t w

    -- The threadflows of a list that are no masters, ended in its order.
    unfoldable pub end_others : (master : ℕ → Bool) → List ℕ → Threads R Q → Option (Threads R Q)
    unfolding end_one
    end_others master [] w = some w
    end_others master (t ∷ list) w =
        let kept = end_others master list w in
        if master t
        then kept
        else elim (end_one t w) [ none ↦ none | some v ↦ end_others master list v ]

    -- end_thread does so from any shm_required.
    end_thread_by :
        (t : ℕ) (w : Threads R Q) (required : ℕ)
        → end_thread reach reach l stops t (record w { shm_required = required })
          ≡ end_with required t w
    unfolding end_thread end_with threadflow_kill
    end_thread_by t w required =
        let th = w.shm_threadflow t in
        let told : Threadflow R = record th { tf_abort = true; tf_running = false } in
        ap
          (λ (o : Threadflow R).
            elim (flowop_delete_all reach reach l o.tf_thrd_fops w.flows)
              as (λ _. Option (Threads R Q)) [
                | none ↦ none
                | some (fops, flows') ↦ some (
                    after flows' (
                      update (update w.shm_threadflow t told) t (record o { tf_thrd_fops = fops })))
              ])
          (update_same w.shm_threadflow t told)
        ∙ shown (flowop_delete_all reach reach l th.tf_thrd_fops w.flows)
      where
        after : Flows Q → (ℕ → Threadflow R) → Threads R Q
        after flows' f = record w {
          flows = record flows' {
            ipc = ipc_free l flows'.ipc threadflow (some (address l threadflow t));
          };
          shm_threadflow = f;
          shm_required = required;
          killed =
              if (w.shm_threadflow t).tf_running && not (stops t) then t ∷ w.killed else w.killed;
        }

        shown :
            (x : Option (Option ℕ × Flows Q))
            → (elim x as (λ _. Option (Threads R Q)) [
              | none ↦ none
              | some (fops, flows') ↦ some (
                  after flows' (
                    update
                      (update w.shm_threadflow t
                        (record (w.shm_threadflow t) { tf_abort = true; tf_running = false }))
                      t
                      (record (w.shm_threadflow t) {
                        tf_abort = true;
                        tf_running = false;
                        tf_thrd_fops = fops;
                      })))
            ])
              ≡ (elim x as (λ _. Option (Threads R Q)) [
                | none ↦ none
                | some (fops, flows') ↦ some (
                    after flows' (
                      update w.shm_threadflow t (record (w.shm_threadflow t) {
                        tf_abort = true;
                        tf_running = false;
                        tf_thrd_fops = fops;
                      })))
              ])
        shown none = refl
        shown (some (fops, flows')) =
            ap (λ f. some (after flows' f)) (update-update w.shm_threadflow t _ _)

    end_one_lem :
        (t : ℕ) (w : Threads R Q)
        → end_one t w ≡ end_thread reach reach l stops t (release_memory t w)
    unfolding end_one release_memory
    end_one_lem t w = elim (Bool-cases ((w.shm_threadflow t).tf_useism)) [
      | inl h ↦ rw h (sym (end_thread_by t w _))
      | inr h ↦ rw h (sym (end_thread_by t w w.shm_required))
    ]

    release_linked :
        (t : ℕ) (w : Threads R Q) (next : ℕ → Option ℕ)
        → release_memory t (linked w next) ≡ linked (release_memory t w) next
    unfolding release_memory
    release_linked t w next = elim (Bool-cases ((w.shm_threadflow t).tf_useism)) [
      | inl h ↦ rw h refl
      | inr h ↦ rw h refl
    ]

    end_linked :
        (t : ℕ) (w : Threads R Q) (next : ℕ → Option ℕ)
        → end_thread reach reach l stops t (linked w next)
          ≡ elim (end_thread reach reach l stops t w) [
            | none ↦ none
            | some v ↦ some (linked v next)
          ]
    unfolding end_thread threadflow_kill
    end_linked t w next =
        let u = threadflow_kill stops t w in
        elim (Option-cases
          (flowop_delete_all reach reach l ((u.shm_threadflow t).tf_thrd_fops) u.flows)) [
            | inl e ↦ rw (e, end_thread) refl
            | inr (x, e) ↦ rw (e, end_thread) refl
          ]

    instance_in : Option (Threads R Q) → ℕ → ℤ → ℤ
    instance_in none b i = i
    instance_in (some v) b i = (v.shm_threadflow b).tf_instance

    -- Ending a threadflow leaves every instance number.
    end_thread_instance :
        (t b : ℕ) (w : Threads R Q)
        → instance_in (end_thread reach reach l stops t w) b (w.shm_threadflow b).tf_instance
          ≡ (w.shm_threadflow b).tf_instance
    unfolding end_thread threadflow_kill instance_in
    end_thread_instance t b w =
        let u = threadflow_kill stops t w in
        elim (Option-cases
          (flowop_delete_all reach reach l ((u.shm_threadflow t).tf_thrd_fops) u.flows)) [
            | inl e ↦ rw (e, end_thread) refl
            | inr (x, e) ↦
                rw (e, end_thread)
                  (update_keeps (λ (th : Threadflow R). th.tf_instance) u.shm_threadflow t b
                      (record (u.shm_threadflow t) { tf_thrd_fops = x.0 }) refl
                    ∙ update_keeps (λ (th : Threadflow R). th.tf_instance) w.shm_threadflow t b
                        (record (w.shm_threadflow t) { tf_abort = true; tf_running = false }) refl)
          ]

    release_instance :
        (t b : ℕ) (w : Threads R Q)
        → ((release_memory t w).shm_threadflow b).tf_instance ≡ (w.shm_threadflow b).tf_instance
    unfolding release_memory
    release_instance t b w =
        if_elim
          (λ (u : Threads R Q). (u.shm_threadflow b).tf_instance ≡ (w.shm_threadflow b).tf_instance)
          (w.shm_threadflow t).tf_useism (λ _. refl) (λ _. refl)

    end_instance :
        (t b : ℕ) (w v : Threads R Q)
        → end_one t w ≡ some v
        → (v.shm_threadflow b).tf_instance ≡ (w.shm_threadflow b).tf_instance
    unfolding instance_in
    end_instance t b w v e =
        let u = release_memory t w in
        sym (ap (λ o. instance_in o b (u.shm_threadflow b).tf_instance) (sym (end_one_lem t w) ∙ e))
        ∙ end_thread_instance t b u
        ∙ release_instance t b w

    -- One threadflow_delete, by what unlink gives.
    delete_step :
        (t : ℕ) (head head' : Option ℕ) (next next' : ℕ → Option ℕ) (w : Threads R Q)
        → unlink reach head next t ≡ unlinked true head' next'
        → threadflow_delete reach reach l stops head t (linked w next)
          ≡ elim (end_one t w) [ none ↦ none | some v ↦ some (true, head', linked v next') ]
    unfolding threadflow_delete
    delete_step t head head' next next' w e =
        let eq = release_linked t w next in
        rw
          (
            end_one_lem t w,
            ap (λ (u : Threads R Q). unlink reach head u.tf_next t) eq ∙ e,
            ap (end_thread reach reach l stops t) eq ∙ end_linked t (release_memory t w) next,
            threadflow_delete,
          )
          (elim (Option-cases (end_thread reach reach l stops t (release_memory t w))) [
            | inl none' ↦ rw none' refl
            | inr (v, e') ↦ rw e' refl
          ])

    -- The threads end as those of a list do, and the links lead through others.
    abbrev pub Ended : Option (Option ℕ × Threads R Q) → Option (Threads R Q) → List ℕ → Type 0
    Ended r none kept = r ≡ none
    Ended r (some w) kept =
        (head : Option ℕ) × (next : ℕ → Option ℕ) × (r ≡ some (head, linked w next))
        × Chain next head kept

    delete_threads-Ended :
        (fuel : ℕ) (master : ℕ → Bool) (kept list : List ℕ) (head : Option ℕ) (next : ℕ → Option ℕ)
        (w : Threads R Q)
        → ((b : ℕ) → is_master ((w.shm_threadflow b).tf_instance) ≡ master b)
        → length list ≤ fuel
        → length (kept ++ list) ≤ reach
        → NoDup (kept ++ list)
        → Chain next head (kept ++ list)
        → Ended
            (delete_threads fuel reach l stops (first list) head (linked w next))
            (end_others master list w)
            (kept ++ masters master list)
    unfolding delete_threads end_others
    delete_threads-Ended fuel master kept [] head next w m lf lr d c = (head, next, refl, c)
    delete_threads-Ended zero master kept (t ∷ list) head next w m lf lr d c = absurd (omega arith)
    delete_threads-Ended (suc fuel) master kept (t ∷ list) head next w m lf lr d c =
        elim (Bool-cases (master t)) [
          | inl yes' ↦
              rw (follow, yes', m t ∙ yes', append-one kept t (masters master list), delete_threads)
                (delete_threads-Ended fuel master (kept ++ (t ∷ [])) list head next w m
                  (omega arith) (rw (← append-one kept t list) lr) (rw (← append-one kept t list) d)
                  (rw (← append-one kept t list) c))
          | inr no' ↦
              let out =
                taken_out reach t head next (kept ++ (t ∷ list)) (contains-append t kept list) lr d
                  c in
              elim (Option-cases (end_one t w)) [
                | inl fails ↦
                    rw
                      (
                        no',
                        m t ∙ no',
                        delete_step t head out.head' next out.next' w out.result,
                        fails,
                        delete_threads,
                      )
                      refl
                | inr (v, ends) ↦
                    rw
                      (
                        no',
                        m t ∙ no',
                        delete_step t head out.head' next out.next' w out.result,
                        ends,
                        delete_threads,
                        out.own,
                        follow,
                      )
                      (delete_threads-Ended fuel master kept list out.head' out.next' v
                        (λ b. ap is_master (end_instance t b w v ends) ∙ m b) (omega arith)
                        (omega (arith, length-append kept (t ∷ list), length-append kept list))
                        (rw (gone) at (NoDup-remove t (kept ++ (t ∷ list)) d))
                        (rw (gone) at out.chain))
              ]
        ]
      where
        gone : remove t (kept ++ (t ∷ list)) ≡ kept ++ list
        gone = remove-append t kept list (NoDup-before t kept list d)

        follow : next t ≡ first list
        follow = Chain-first next (next t) list (Chain-tail next head kept (t ∷ list) c).1

    -- Where the process's threadflows are a chain without repetitions, threadflow_delete_all follows
    -- no NULL link and ends within the fuel of the list's length, unless flowop_delete_all does not
    -- end for the flowops of a thread. It ends the threadflows that are no masters, in the order of
    -- the list: for each the memory is given back, the thread is told to stop, and killed where it
    -- does not, its flowops are deleted and its slot is freed. The masters are the new list.
    pub threadflow_delete_all-Ended :
        (fuel : ℕ) (list : List ℕ) (head : Option ℕ) (s : Threads R Q)
        → length list ≤ fuel
        → length list ≤ reach
        → NoDup list
        → Chain s.tf_next head list
        → Ended
            (threadflow_delete_all fuel reach l stops head s)
            (end_others (λ b. is_master ((s.shm_threadflow b).tf_instance)) list s)
            (masters (λ b. is_master ((s.shm_threadflow b).tf_instance)) list)
    unfolding threadflow_delete_all
    threadflow_delete_all-Ended fuel list head s lf lr d c =
        let m = λ (b : ℕ). is_master ((s.shm_threadflow b).tf_instance) in
        subst
          (λ h.
            Ended (delete_threads fuel reach l stops h head s) (end_others m list s)
              (masters m list))
          (sym (Chain-first s.tf_next head list c))
          (delete_threads-Ended fuel m [] list head s.tf_next s (λ b. refl) lf lr d c)
