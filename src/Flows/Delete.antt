-- ===== src/Flows/Delete.antt =====
-- flowop_delete and flowop_delete_all of filebench/flowop.c, against removal from plain lists.
use filebench_pre_fsl.Base.{
  ℕ, zero, suc, ◌<◌, ◌≤◌, ◌≡◌, refl, ap, ◌∙◌, ◌≢◌, inl, inr, Bool, true, false, Option, some, List,
  [], ◌∷◌, ◌++◌, if◌then◌else◌, length, length-append, All, Bool-cases, arith,
}
use filebench_pre_fsl.Ipc.{Shm, flowop, Layout, address, ipc_free}
use filebench_pre_fsl.Flows.{
  Flowop, Flows, is_master, unlinked, unlink, flowop_delete, delete_from, flowop_delete_all,
}
use filebench_pre_fsl.Flows.Chain.{
  Chain, Without, NoDup, remove, contains, unlink_removes, first, Chain-first, Chain-tail,
  NoDup-remove, NoDup-before, remove-append, contains-remove, length-remove,
}

-- What the lists of one thread and of all flowops hold, without the links.
pub record View : Type 0 where
  pub thread : List ℕ
  pub global : List ℕ
  pub ipc : Shm

unfoldable pub take_out : Layout → ℕ → View → View
take_out l fo w = record {
  thread = remove fo w.thread;
  global = remove fo w.global;
  ipc =
      if contains fo w.global then ipc_free l w.ipc flowop (some (address l flowop fo)) else w.ipc;
}

-- The elements of a list that are no masters, taken out one after the other.
unfoldable pub take_out_others : Layout → (ℕ → Bool) → List ℕ → View → View
unfolding take_out
take_out_others l master [] w = w
take_out_others l master (fo ∷ list) w =
    take_out_others l master list (if master fo then w else take_out l fo w)

abbrev pub view : List ℕ → List ℕ → Shm → View
view xs ys i = record { thread = xs; global = ys; ipc = i }

-- The elements are all in the global list.
abbrev pub Listed : List ℕ → List ℕ → Type 0
Listed ys xs = All (λ a. contains a ys ≡ true) xs

Listed-remove : (a : ℕ) (ys xs : List ℕ) → Without a xs → Listed ys xs → Listed (remove a ys) xs
Listed-remove a ys [] w h = tt
Listed-remove a ys (x ∷ xs) w h = (contains-remove x a ys w.0 ∙ h.0, Listed-remove a ys xs w.1 h.1)

not_empty : (a : ℕ) (xs list : List ℕ) → xs ++ (a ∷ list) ≢ []
not_empty a [] list e = cc
not_empty a (x ∷ xs) list e = cc

Listed-not_empty : (a : ℕ) (ys : List ℕ) → contains a ys ≡ true → ys ≢ []
Listed-not_empty a [] h e = cc
Listed-not_empty a (y ∷ ys) h e = cc

NoDup-after : (a : ℕ) (xs list : List ℕ) → NoDup (xs ++ (a ∷ list)) → Without a list
NoDup-after a [] list d = d.0
NoDup-after a (x ∷ xs) list d = NoDup-after a xs list d.1

pub append-one : (xs : List ℕ) (a : ℕ) (list : List ℕ) → xs ++ (a ∷ list) ≡ (xs ++ (a ∷ [])) ++ list
append-one [] a list = refl
append-one (x ∷ xs) a list = ap (λ ys. x ∷ ys) (append-one xs a list)

module _ {R : Type 0} where
  -- The state's links show the lists.
  pub record Shows (head : Option ℕ) (s : Flows R) (w : View) : Type 0 where
    pub thread : Chain s.fo_exec_next head w.thread
    pub global : Chain s.fo_next s.shm_flowoplist w.global
    pub thread_once : NoDup w.thread
    pub global_once : NoDup w.global
    pub ipc : s.ipc ≡ w.ipc

  -- A result that shows the lists, with the flowops themselves unchanged.
  abbrev pub Deleted : Option (Option ℕ × Flows R) → (ℕ → Flowop R) → View → Type 0
  Deleted r ops w =
      (head : Option ℕ) × (t : Flows R) × (r ≡ some (head, t))
      × Shows head t w
      × (t.shm_flowop ≡ ops)

  module _ (fuel : ℕ) (l : Layout) (fo : ℕ) (head : Option ℕ) (s : Flows R) where
    after_delete : Bool → (list : Option ℕ) → (exec next : ℕ → Option ℕ) → Flows R
    after_delete found list exec next = record s {
      fo_exec_next = exec;
      fo_next = next;
      shm_flowoplist = list;
      ipc = if found then ipc_free l s.ipc flowop (some (address l flowop fo)) else s.ipc;
    }

    delete_by :
        (b found : Bool) (head' list : Option ℕ) (exec next : ℕ → Option ℕ)
        → unlink fuel head s.fo_exec_next fo ≡ unlinked b head' exec
        → unlink fuel s.shm_flowoplist s.fo_next fo ≡ unlinked found list next
        → flowop_delete fuel l head fo s ≡ some (head', after_delete found list exec next)
    unfolding flowop_delete after_delete
    delete_by b found head' list exec next e e' = rw (e, e', flowop_delete) refl

    flowop_delete-Deleted :
        (x y : ℕ) (xs ys : List ℕ) (i : Shm)
        → length xs < fuel
        → length ys < fuel
        → Shows head s (view (x ∷ xs) (y ∷ ys) i)
        → Deleted
            (flowop_delete fuel l head fo s)
            s.shm_flowop
            (take_out l fo (view (x ∷ xs) (y ∷ ys) i))
    unfolding take_out after_delete
    flowop_delete-Deleted x y xs ys i lx ly h =
        let (head', exec, e, w) =
          unlink_removes fuel fo x s.fo_exec_next xs lx h.thread_once (refl, h.thread.1) in
        let (list', next, e', w') =
          unlink_removes fuel fo y s.fo_next ys ly h.global_once (refl, h.global.1) in
        (
          head',
          after_delete (contains fo (y ∷ ys)) list' exec next,
          delete_by (contains fo (x ∷ xs)) (contains fo (y ∷ ys)) head' list' exec next
              (ap (λ p. unlink fuel p s.fo_exec_next fo) (h.thread.0) ∙ e)
              (ap (λ p. unlink fuel p s.fo_next fo) (h.global.0) ∙ e'),
          record {
            thread = w.chain;
            global = w'.chain;
            thread_once = NoDup-remove fo (x ∷ xs) h.thread_once;
            global_once = NoDup-remove fo (y ∷ ys) h.global_once;
            ipc =
                ap
                  (λ (m : Shm).
                    if contains fo (y ∷ ys)
                    then ipc_free l m flowop (some (address l flowop fo))
                    else m)
                  h.ipc;
          },
          refl,
        )

    -- Where both lists hold something.
    delete-view :
        (xs ys : List ℕ) (i : Shm)
        → xs ≢ []
        → ys ≢ []
        → length xs ≤ fuel
        → length ys ≤ fuel
        → Shows head s (view xs ys i)
        → Deleted (flowop_delete fuel l head fo s) s.shm_flowop (take_out l fo (view xs ys i))
    delete-view [] ys i nx ny lx ly h = absurd (nx refl)
    delete-view (x ∷ xs) [] i nx ny lx ly h = absurd (ny refl)
    delete-view (x ∷ xs) (y ∷ ys) i nx ny lx ly h =
        flowop_delete-Deleted x y xs ys i (omega arith) (omega arith) h

  abbrev pub master_in : (ℕ → Flowop R) → ℕ → Bool
  master_in ops fo = is_master ((ops fo).fo_instance)

  -- The loop, with the masters that it has passed.
  delete_from-Deleted :
      (fuel reach : ℕ) (l : Layout) (ops : ℕ → Flowop R) (kept list ys : List ℕ) (i : Shm)
      (head : Option ℕ) (s : Flows R)
      → s.shm_flowop ≡ ops
      → length list ≤ fuel
      → length (kept ++ list) ≤ reach
      → length ys ≤ reach
      → Listed ys list
      → Shows head s (view (kept ++ list) ys i)
      → Deleted
          (delete_from fuel reach l (first list) head s)
          ops
          (take_out_others l (master_in ops) list (view (kept ++ list) ys i))
  unfolding delete_from take_out_others take_out
  delete_from-Deleted fuel reach l ops kept [] ys i head s same lf lk ly h m =
      (head, s, refl, m, same)
  delete_from-Deleted zero reach l ops kept (fo ∷ list) ys i head s same lf lk ly h m =
      absurd (omega arith)
  delete_from-Deleted (suc fuel) reach l ops kept (fo ∷ list) ys i head s same lf lk ly h m =
      elim (Bool-cases (master_in ops fo)) [
        | inl master ↦
            let master' : master_in s.shm_flowop fo ≡ true =
              ap (λ (o : ℕ → Flowop R). master_in o fo) same ∙ master in
            rw (follow, master, master', append-one kept fo list)
              (delete_from-Deleted fuel reach l ops (kept ++ (fo ∷ [])) list ys i head s same
                (omega arith) (rw (← append-one kept fo list) lk) ly h.1
                (rw (← append-one kept fo list) m))
        | inr other ↦
            let other' : master_in s.shm_flowop fo ≡ false =
              ap (λ (o : ℕ → Flowop R). master_in o fo) same ∙ other in
            let (head', t, e, m', same') =
              delete-view reach l fo head s (kept ++ (fo ∷ list)) ys i (not_empty fo kept list)
                (Listed-not_empty fo ys h.0) lk ly m in
            rw (other', other, e, follow, gone)
              (delete_from-Deleted fuel reach l ops kept list (remove fo ys)
                (if contains fo ys then ipc_free l i flowop (some (address l flowop fo)) else i)
                head' t (same' ∙ same) (omega arith)
                (omega (arith, length-append kept (fo ∷ list), length-append kept list))
                (omega (arith, length-remove fo ys))
                (Listed-remove fo ys list (NoDup-after fo kept list m.thread_once) h.1)
                (rw gone at m'))
      ]
    where
      gone : remove fo (kept ++ (fo ∷ list)) ≡ kept ++ list
      gone = remove-append fo kept list (NoDup-before fo kept list m.thread_once)

      follow : s.fo_exec_next fo ≡ first list
      follow =
          Chain-first s.fo_exec_next (s.fo_exec_next fo) list
            (Chain-tail s.fo_exec_next head kept (fo ∷ list) m.thread).1

  -- Where the thread's list and the global list are chains without repetitions, and every flowop of
  -- the thread is in the global list, flowop_delete_all follows no NULL link and ends within the
  -- fuel of the lists' lengths. The links then show the lists from which each flowop of the thread's
  -- list that is no master has been taken out, and its slot freed; the flowops are not written.
  pub flowop_delete_all-Deleted :
      (fuel reach : ℕ) (l : Layout) (xs ys : List ℕ) (head : Option ℕ) (s : Flows R)
      → length xs ≤ fuel
      → length xs ≤ reach
      → length ys ≤ reach
      → Listed ys xs
      → Shows head s (view xs ys s.ipc)
      → Deleted
          (flowop_delete_all fuel reach l head s)
          s.shm_flowop
          (take_out_others l (master_in s.shm_flowop) xs (view xs ys s.ipc))
  unfolding flowop_delete_all
  flowop_delete_all-Deleted fuel reach l xs ys head s lf lk ly h m =
      rw at_first
        (delete_from-Deleted fuel reach l s.shm_flowop [] xs ys s.ipc head s refl lf lk ly h m)
    where
      at_first : delete_from fuel reach l head head s ≡ delete_from fuel reach l (first xs) head s
      at_first =
          ap (λ c. delete_from fuel reach l c head s) (Chain-first s.fo_exec_next head xs m.thread)
