-- ===== src/Flows/Runtime/Copied.antt =====
-- One call of flowop_define_common that copies a flowop for a thread.
use filebench_pre_fsl.Base.{
  ℕ, ◌<◌, ◌≤◌, ◌≡◌, refl, ap, ◌∙◌, ◌≢◌, ◌⊎◌, inl, inr, Option, none, some, List, [], ◌∷◌, ◌++◌,
  length, update, update_same, update_other, All,
}
use filebench_pre_fsl.Base.Int.{pos}
use filebench_pre_fsl.Ipc.{flowop, filebench_sizes, mark}
use filebench_pre_fsl.Ipc.Alloc.{Full, malloc_cases, malloc_full}
use filebench_pre_fsl.Limits.{global}
use filebench_pre_fsl.Flows.{Flowop, Flows, flowop_define_common, initial, enter_global}
use filebench_pre_fsl.Flows.Chain.{Without}
use filebench_pre_fsl.Flows.Delete.{view, Shows}
use filebench_pre_fsl.Flows.Define.{
  append-Shows, new_flowop, new_flowop-Entered, define_by, not_among,
}

module _ {R : Type 0} where
  -- A flowop that is another's copy for a thread: it has its name, type, iterations and the rest.
  abbrev pub CopyOf : (thread : Option ℕ) → (new old : Flowop R) → Type 0
  CopyOf thread new old = new ≡ record old { fo_thread = thread; fo_instance = pos 1 }

  -- What one copy does.
  pub record Copied (thread : Option ℕ) (s t : Flows R) (p fo : ℕ) (xs ys : List ℕ)
      (head : Option ℕ) : Type 0 where
    pub free : s.ipc.bitmap flowop fo ≡ 0
    pub shows : Shows head t (view (xs ++ (fo ∷ [])) (fo ∷ ys) t.ipc)
    pub ipc : t.ipc ≡ mark s.ipc flowop fo
    pub copy : CopyOf thread (t.shm_flowop fo) (s.shm_flowop p)
    pub other_ops : (b : ℕ) → b ≢ fo → t.shm_flowop b ≡ s.shm_flowop b
    pub other_links : (b : ℕ) → Without b xs → b ≢ fo → t.fo_exec_next b ≡ s.fo_exec_next b

  module _ (zeros : R) (thread : Option ℕ) where
    pub define-Copied :
        (fuel p : ℕ) (head : Option ℕ) (s : Flows R) (xs ys : List ℕ)
        → s.ipc.last flowop < filebench_sizes s.ipc.memsize flowop
        → All (λ a. s.ipc.bitmap flowop a ≡ 1) xs
        → All (λ a. s.ipc.bitmap flowop a ≡ 1) ys
        → length xs ≤ fuel
        → Shows head s (view xs ys s.ipc)
        → ((flowop_define_common fuel zeros thread
                (some (s.shm_flowop p).fo_name)
                (some p)
                (some head)
                (pos 1)
                global
                s
              ≡ some (none, some head, s))
            × Full s.ipc flowop)
          ⊎ ((fo : ℕ) × (head' : Option ℕ) × (t : Flows R) × (flowop_define_common fuel zeros thread
                  (some (s.shm_flowop p).fo_name)
                  (some p)
                  (some head)
                  (pos 1)
                  global
                  s
                ≡ some (some fo, some head', t))
              × (fo < filebench_sizes s.ipc.memsize flowop)
              × Copied thread s t p fo xs ys head')
    unfolding flowop_define_common initial enter_global new_flowop
    define-Copied fuel p head s xs ys lt used used' lx m =
        let str = (s.shm_flowop p).fo_name in
        elim (malloc_cases s.ipc flowop lt) [
          | inl full ↦ inl (rw (full, flowop_define_common) refl, malloc_full s.ipc flowop lt full)
          | inr (fo, e, below, free) ↦
              let s' : Flows R = record s { ipc = mark s.ipc flowop fo } in
              let w = not_among zeros thread str (pos 1) global s fo xs free used in
              let w' = not_among zeros thread str (pos 1) global s fo ys free used' in
              let new = new_flowop zeros thread str (pos 1) global (some p) fo s' in
              let (head', u, r, shows, same, ipc, links) =
                append-Shows fuel head fo new xs ys lx m.thread_once (w', m.global_once) w
                  (new_flowop-Entered zeros thread str (pos 1) global (some p) fo head s' xs ys w w'
                    m.thread m.global) in
              let copied = update s.shm_flowop fo (s.shm_flowop p) in
              inr (
                fo,
                head',
                u,
                define_by zeros thread str (pos 1) global fuel fo (some p) head head' s u e r,
                below,
                record {
                  free = free;
                  shows = shows;
                  ipc = ipc;
                  copy =
                      ap (λ (o : ℕ → Flowop R). o fo) same
                      ∙ update_same copied fo _
                      ∙ ap
                          (λ (o : Flowop R). record o {
                            fo_thread = thread;
                            fo_name = str;
                            fo_instance = pos 1;
                          })
                          (update_same s.shm_flowop fo (s.shm_flowop p));
                  other_ops = λ b ne.
                      ap (λ (o : ℕ → Flowop R). o b) same
                      ∙ update_other copied fo b _ ne
                      ∙ update_other s.shm_flowop fo b (s.shm_flowop p) ne;
                  other_links = λ b v ne. links b v ne ∙ update_other s.fo_exec_next fo b none ne;
                },
              )
        ]
