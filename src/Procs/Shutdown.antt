-- ===== src/Procs/Shutdown.antt =====
-- procflow_shutdown of filebench/procflow.c, against the processes of a plain list.
use filebench_pre_fsl.Base.{
  ℕ, zero, suc, ◌-◌, ◌%◌, ◌≤◌, ◌≡◌, refl, ap, ◌∙◌, inl, inr, Bool, true, false, not, ◌&&◌, ◌||◌,
  ◌⊎◌, Option, some, List, [], ◌∷◌, ◌++◌, ◌==◌, if◌then◌else◌, length, length-append, update,
  Bool-cases, arith,
}
use filebench_pre_fsl.Base.Int.{pos, exceeds}
use filebench_pre_fsl.Ipc.{Layout, procflow, address, ipc_free}
use filebench_pre_fsl.Flows.{is_master, unlinked, unlink}
use filebench_pre_fsl.Flows.Chain.{
  Chain, NoDup, remove, first, Chain-first, Chain-tail, NoDup-remove, NoDup-before, remove-append,
}
use filebench_pre_fsl.Flows.Delete.{append-one}
use filebench_pre_fsl.Flows.Worker.{abort_done, abort_fini, is_set}
use filebench_pre_fsl.Threads.TakeOut.{taken_out, contains-append}
use filebench_pre_fsl.Threads.Delete.{masters, update_keeps}
use filebench_pre_fsl.Procs.Cleanup.{procflow_sleep_lem, taken, cleanup_by}
use filebench_pre_fsl.Procs.{
  Procflow, Procs, procflow_sleep, stop_running, free_procflow, is_fini, procflow_cleanup,
  shutdown_from, procflow_shutdown,
}

starts :
    (p : ℕ) (kept list : List ℕ) (head : Option ℕ) (next : ℕ → Option ℕ)
    → Chain next head (kept ++ (p ∷ list))
    → (h : ℕ) × (head ≡ some h)
starts p [] list head next c = (p, c.0)
starts p (x ∷ kept) list head next c = (x, c.0)

module _ {R : Type 0} where
  abbrev pub linked : Procs R → (ℕ → Option ℕ) → Option ℕ → Procs R
  linked w next head = record w { pf_next = next; shm_proclist = head }

  -- The links of the list lead through its masters.
  abbrev pub Ended : Option (Procs R) → Procs R → List ℕ → Type 0
  Ended r w kept =
      (head : Option ℕ) × (next : ℕ → Option ℕ) × (r ≡ some (linked w next head))
      × Chain next head kept

  -- The state in which the loop starts: FILEBENCH_ABORT_DONE, where nothing else ended the run.
  abbrev pub stopping : Procs R → Procs R
  stopping s = record s { shm_f_abort = if is_set s.shm_f_abort then s.shm_f_abort else abort_done }

  abbrev pub over : Procs R → Procs R
  over s = record s { shm_f_abort = abort_fini; shm_procs_running = pos 0 }

  module _ (l : Layout) (runs : ℕ → ℕ → Bool) where
    -- One process: it has a second to stop where wait_cnt is odd, and none where it is even.
    abbrev pub end_proc : (wait_cnt : ℕ) → ℕ → Procs R → Procs R
    end_proc wait p w = record w {
      ipc = ipc_free l w.ipc procflow (some (address l procflow p));
      shm_procflow = update w.shm_procflow p (record (w.shm_procflow p) { pf_running = false });
      signalled =
          if runs p (if runs p 0 && (wait % 2 == 1) then 1 else 0)
          then p ∷ w.signalled
          else w.signalled;
    }

    -- The processes of a list that are no masters, with one second less for each.
    unfoldable pub end_procs : (master : ℕ → Bool) → (wait_cnt : ℕ) → List ℕ → Procs R → Procs R
    end_procs master wait [] w = w
    end_procs master wait (p ∷ list) w =
        let kept = end_procs master wait list w in
        let ended = end_procs master (wait - 1) list (end_proc wait p w) in
        if master p then kept else ended

    cleanup_step :
        (reach wait p : ℕ) (head head' : Option ℕ) (next next' : ℕ → Option ℕ) (w : Procs R)
        → (h : ℕ) × (head ≡ some h)
        → unlink reach head next p ≡ unlinked true head' next'
        → procflow_cleanup reach l p (record (linked w next head) {
          signalled =
              if runs p (procflow_sleep (runs p) 0 wait) then p ∷ w.signalled else w.signalled;
        })
          ≡ some (true, linked (end_proc wait p w) next' head')
    unfolding taken stop_running free_procflow
    cleanup_step reach wait p head head' next next' w (h, start) e =
        cleanup_by reach p l head' next'
          (record (linked w next head) {
            signalled =
                if runs p (procflow_sleep (runs p) 0 wait) then p ∷ w.signalled else w.signalled;
          })
          h start e
        ∙ ap
            (λ n. some (
              true,
              linked
                  (record (end_proc wait p w) {
                    signalled = if runs p n then p ∷ w.signalled else w.signalled;
                  })
                  next' head',
            ))
            (procflow_sleep_lem (runs p) 0 wait)

    module _ (reach : ℕ) where
      shutdown_from-Ended :
          (fuel wait : ℕ) (master : ℕ → Bool) (kept list : List ℕ) (head : Option ℕ)
          (next : ℕ → Option ℕ) (w : Procs R)
          → ((b : ℕ) → is_master ((w.shm_procflow b).pf_instance) ≡ master b)
          → length list ≤ fuel
          → length (kept ++ list) ≤ reach
          → NoDup (kept ++ list)
          → Chain next head (kept ++ list)
          → Ended
              (shutdown_from fuel reach l runs wait (first list) (linked w next head))
              (end_procs master wait list w)
              (kept ++ masters master list)
      unfolding shutdown_from end_procs
      shutdown_from-Ended fuel wait master kept [] head next w m lf lr d c = (head, next, refl, c)
      shutdown_from-Ended zero wait master kept (p ∷ list) head next w m lf lr d c =
          absurd (omega arith)
      shutdown_from-Ended (suc fuel) wait master kept (p ∷ list) head next w m lf lr d c =
          elim (Bool-cases (master p)) [
            | inl yes' ↦
                rw
                  (follow, yes', m p ∙ yes', append-one kept p (masters master list), shutdown_from)
                  (shutdown_from-Ended fuel wait master (kept ++ (p ∷ [])) list head next w m
                    (omega arith) (rw (← append-one kept p list) lr)
                    (rw (← append-one kept p list) d) (rw (← append-one kept p list) c))
            | inr no' ↦
                let out =
                  taken_out reach p head next (kept ++ (p ∷ list)) (contains-append p kept list) lr
                    d c in
                rw
                  (
                    no',
                    m p ∙ no',
                    cleanup_step reach wait p head out.head' next out.next' w
                        (starts p kept list head next c) out.result,
                    shutdown_from,
                  )
                  (rw follow (
                    shutdown_from-Ended fuel (wait - 1) master kept list out.head' out.next'
                      (end_proc wait p w)
                      (λ b.
                        ap is_master (
                          update_keeps (λ (f : Procflow R). f.pf_instance) w.shm_procflow p b
                            (record (w.shm_procflow p) { pf_running = false }) refl)
                        ∙ m b)
                      (omega arith)
                      (omega (arith, length-append kept (p ∷ list), length-append kept list))
                      (rw (gone) at (NoDup-remove p (kept ++ (p ∷ list)) d))
                      (rw (gone) at out.chain)))
          ]
        where
          gone : remove p (kept ++ (p ∷ list)) ≡ kept ++ list
          gone = remove-append p kept list (NoDup-before p kept list d)

          follow : next p ≡ first list
          follow = Chain-first next (next p) list (Chain-tail next head kept (p ∷ list) c).1

      -- Where the process list is a chain without repetitions, procflow_shutdown ends within the
      -- fuel of its length. Nothing is done where no process runs, or the shutdown was done. Otherwise
      -- the list holds the masters only, each other process is marked as not running and its slot
      -- freed, no process is counted, and FILEBENCH_ABORT_FINI is set. A process is signalled where it
      -- still runs after a second, if its turn is the first or the third, or else at once.
      pub procflow_shutdown_outcome :
          (fuel : ℕ) (list : List ℕ) (s : Procs R)
          → length list ≤ fuel
          → length list ≤ reach
          → NoDup list
          → Chain s.pf_next s.shm_proclist list
          → ((procflow_shutdown fuel reach l runs s ≡ some s)
              × ((not (exceeds s.shm_procs_running 0) || is_fini s.shm_f_abort) ≡ true))
            ⊎ (((not (exceeds s.shm_procs_running 0) || is_fini s.shm_f_abort) ≡ false)
                × Ended
                    (procflow_shutdown fuel reach l runs s)
                    (over (
                      end_procs
                        (λ p. is_master ((s.shm_procflow p).pf_instance))
                        3
                        list
                        (stopping s)))
                    (masters (λ p. is_master ((s.shm_procflow p).pf_instance)) list))
      unfolding procflow_shutdown
      procflow_shutdown_outcome fuel list s lf lr d c =
          elim (Bool-cases (exceeds s.shm_procs_running 0)) [
            | inr idle ↦ inl (rw (idle, procflow_shutdown) refl, rw idle refl)
            | inl busy ↦ elim (Bool-cases (is_fini s.shm_f_abort)) [
              | inl fini ↦ inl (rw (busy, fini, procflow_shutdown) refl, rw (busy, fini) refl)
              | inr not_yet ↦
                  let m = λ (p : ℕ). is_master ((s.shm_procflow p).pf_instance) in
                  let (head', next', e, chain) =
                    shutdown_from-Ended fuel 3 m [] list s.shm_proclist s.pf_next (stopping s)
                      (λ b. refl) lf lr d c in
                  let e' =
                    ap (λ h. shutdown_from fuel reach l runs 3 h (stopping s))
                      (Chain-first s.pf_next s.shm_proclist list c)
                    ∙ e in
                  inr (
                    rw (busy, not_yet) refl,
                    (head', next', rw (busy, not_yet, e', procflow_shutdown) refl, chain),
                  )
            ]
          ]
