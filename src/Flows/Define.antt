-- ===== src/Flows/Define.antt =====
-- flowop_define_common of filebench/flowop.c, against adding to plain lists.
use filebench_pre_fsl.Base.{
  ℕ, zero, suc, ◌<◌, ◌≤◌, ◌≡◌, refl, sym, ap, ◌∙◌, ◌≢◌, ◌⊎◌, inl, inr, Option, none, some, List, [],
  ◌∷◌, ◌++◌, length, update, update_same, update_other, All, arith,
}
use filebench_pre_fsl.Base.Int.{ℤ}
use filebench_pre_fsl.Ipc.{flowop, filebench_sizes, Shm, mark, ipc_malloc}
use filebench_pre_fsl.Ipc.Alloc.{malloc_cases}
use filebench_pre_fsl.Limits.{FlowType}
use filebench_pre_fsl.Vars.{Str}
use filebench_pre_fsl.Flows.{
  Flowop, Flows, list_end, append, plain_flowop, initial, enter_global, flowop_define_common,
}
use filebench_pre_fsl.Flows.Chain.{Chain, Without, NoDup, Chain-update}
use filebench_pre_fsl.Flows.Delete.{view, Shows}

-- A slot hung behind the last one.
pub record Hung (next next' : ℕ → Option ℕ) (fo : ℕ) (h : Option ℕ) (list : List ℕ) : Type 0 where
  pub chain : Chain next' h (list ++ (fo ∷ []))
  pub others : (b : ℕ) → Without b list → b ≢ fo → next' b ≡ next b

pub list_end-Hung :
    (fuel fo h : ℕ) (next : ℕ → Option ℕ) (list : List ℕ)
    → length list < fuel
    → NoDup (h ∷ list)
    → Without fo (h ∷ list)
    → Chain next (next h) list
    → (e : ℕ) × (list_end fuel next h ≡ some e)
      × Hung next (update (update next e (some fo)) fo none) fo (some h) (h ∷ list)
unfolding list_end
list_end-Hung zero fo h next list lt d w c = absurd (omega arith)
list_end-Hung (suc fuel) fo h next [] lt d w c = (
  h,
  rw (c, list_end) refl,
  record {
    chain = (
      refl,
      (
        update_other (update next h (some fo)) fo h none w.0 ∙ update_same next h (some fo),
        update_same (update next h (some fo)) fo none,
      ),
    );
    others = λ b v ne.
        update_other (update next h (some fo)) fo b none ne
        ∙ update_other next h b (some fo) (λ e. v.0 (sym e));
  },
)
list_end-Hung (suc fuel) fo h next (n ∷ list) lt d w c =
    let (e, r, k) = list_end-Hung fuel fo n next list (omega arith) d.1 w.1 c.1 in
    (
      e,
      rw (c.0, list_end) r,
      record {
        chain = (refl, rw (k.others h d.0 w.0, c.0) k.chain);
        others = λ b v ne. k.others b v.1 ne;
      },
    )

NoDup-append : (fo : ℕ) (list : List ℕ) → Without fo list → NoDup list → NoDup (list ++ (fo ∷ []))
NoDup-append fo [] w d = (tt, tt)
NoDup-append fo (a ∷ list) w d = (last fo a list w.0 d.0, NoDup-append fo list w.1 d.1)
  where
    last : (fo a : ℕ) (list : List ℕ) → a ≢ fo → Without a list → Without a (list ++ (fo ∷ []))
    last fo a [] ne v = (λ e. ne (sym e), tt)
    last fo a (b ∷ list) ne v = (v.0, last fo a list ne v.1)

module _ {R : Type 0} where
  -- A flowop that is in neither list, put in front of the global one.
  abbrev pub Entered : (head : Option ℕ) → Flows R → ℕ → (xs ys : List ℕ) → Type 0
  Entered head t fo xs ys =
      Chain t.fo_exec_next head xs × Chain t.fo_next t.shm_flowoplist (fo ∷ ys)

  entered :
      (fo : ℕ) (head : Option ℕ) (s : Flows R) (xs ys : List ℕ)
      → Without fo xs
      → Without fo ys
      → Chain s.fo_exec_next head xs
      → Chain s.fo_next s.shm_flowoplist ys
      → Chain (update s.fo_exec_next fo none) head xs
        × Chain (update (update s.fo_next fo none) fo s.shm_flowoplist) (some fo) (fo ∷ ys)
  entered fo head s xs ys w w' c c' = (
    Chain-update s.fo_exec_next fo none head xs w c,
    (
      refl,
      rw (update_same (update s.fo_next fo none) fo s.shm_flowoplist) (
          Chain-update (update s.fo_next fo none) fo s.shm_flowoplist s.shm_flowoplist ys w'
            (Chain-update s.fo_next fo none s.shm_flowoplist ys w' c')),
    ),
  )

  pub append-Shows :
      (fuel : ℕ) (head : Option ℕ) (fo : ℕ) (t : Flows R) (xs ys : List ℕ)
      → length xs ≤ fuel
      → NoDup xs
      → NoDup (fo ∷ ys)
      → Without fo xs
      → Entered head t fo xs ys
      → (head' : Option ℕ) × (u : Flows R) × (append fuel head fo t ≡ some (head', u))
        × Shows head' u (view (xs ++ (fo ∷ [])) (fo ∷ ys) u.ipc)
        × (u.shm_flowop ≡ t.shm_flowop)
        × (u.ipc ≡ t.ipc)
        × ((b : ℕ) → Without b xs → b ≢ fo → u.fo_exec_next b ≡ t.fo_exec_next b)
  unfolding append
  append-Shows fuel head fo t [] ys lt d d' w c = (
    some fo,
    record t { fo_exec_next = update t.fo_exec_next fo none },
    rw (c.0, append) refl,
    record {
      thread = (refl, update_same t.fo_exec_next fo none);
      global = c.1;
      thread_once = (tt, tt);
      global_once = d';
      ipc = refl;
    },
    refl,
    refl,
    λ b v ne. update_other t.fo_exec_next fo b none ne,
  )
  append-Shows fuel head fo t (x ∷ xs) ys lt d d' w c =
      let (e, r, k) = list_end-Hung fuel fo x t.fo_exec_next xs (omega arith) d w c.0.1 in
      (
        some x,
        record t { fo_exec_next = update (update t.fo_exec_next e (some fo)) fo none },
        rw (c.0.0, r, append) refl,
        record {
          thread = k.chain;
          global = c.1;
          thread_once = NoDup-append fo (x ∷ xs) w d;
          global_once = d';
          ipc = refl;
        },
        refl,
        refl,
        k.others,
      )

  module _ (zeros : R) (thread : Option ℕ) (str : Str) (instance : ℤ) (type : FlowType) where
    -- The new flowop before it is appended.
    unfoldable pub new_flowop : Option ℕ → ℕ → Flows R → Flows R
    new_flowop inherit fo s = enter_global thread str instance fo (initial zeros inherit type fo s)

    pub new_flowop-Entered :
        (inherit : Option ℕ) (fo : ℕ) (head : Option ℕ) (s : Flows R) (xs ys : List ℕ)
        → Without fo xs
        → Without fo ys
        → Chain s.fo_exec_next head xs
        → Chain s.fo_next s.shm_flowoplist ys
        → Entered head (new_flowop inherit fo s) fo xs ys
    unfolding new_flowop enter_global initial plain_flowop
    new_flowop-Entered none fo head s xs ys w w' c c' = entered fo head s xs ys w w' c c'
    new_flowop-Entered (some p) fo head s xs ys w w' c c' = entered fo head s xs ys w w' c c'

    pub new_flowop-named :
        (inherit : Option ℕ) (fo : ℕ) (s : Flows R)
        → (((new_flowop inherit fo s).shm_flowop fo).fo_name ≡ str)
          × (((new_flowop inherit fo s).shm_flowop fo).fo_instance ≡ instance)
          × (((new_flowop inherit fo s).shm_flowop fo).fo_thread ≡ thread)
    unfolding new_flowop enter_global
    new_flowop-named inherit fo s =
        let put =
          update_same (initial zeros inherit type fo s).shm_flowop fo
            (record ((initial zeros inherit type fo s).shm_flowop fo) {
              fo_thread = thread;
              fo_name = str;
              fo_instance = instance;
            }) in
        (
          ap (λ (o : Flowop R). o.fo_name) put,
          ap (λ (o : Flowop R). o.fo_instance) put,
          ap (λ (o : Flowop R). o.fo_thread) put,
        )

    pub define_by :
        (fuel fo : ℕ) (inherit head head' : Option ℕ) (s u : Flows R)
        → ipc_malloc s.ipc flowop ≡ (some fo, mark s.ipc flowop fo)
        → append fuel head fo (new_flowop inherit fo (record s { ipc = mark s.ipc flowop fo }))
          ≡ some (head', u)
        → flowop_define_common fuel zeros thread (some str) inherit (some head) instance type s
          ≡ some (some fo, some head', u)
    unfolding flowop_define_common new_flowop
    define_by fuel fo inherit head head' s u e e' =
        rw (e, ap (λ (m : Option ℕ × Shm). m.1) e, e', flowop_define_common) refl

    pub not_among :
        (s : Flows R) (fo : ℕ) (list : List ℕ)
        → s.ipc.bitmap flowop fo ≡ 0
        → All (λ a. s.ipc.bitmap flowop a ≡ 1) list
        → Without fo list
    not_among s fo [] free used = tt
    not_among s fo (a ∷ list) free used = (
      λ e.
          let clash : s.ipc.bitmap flowop a ≡ 0 = ap (s.ipc.bitmap flowop) e ∙ free in
          let taken : s.ipc.bitmap flowop a ≡ 1 = used.0 in omega arith,
      not_among s fo list free used.1,
    )

    -- Where the lists are chains of slots in use without repetitions, flowop_define_common with a
    -- name and a list ends within the fuel of the list's length. Either there is no free slot, and
    -- nothing changes; or a free slot is the new flowop, with the name, instance and thread, at the
    -- end of the given list and at the front of the global one, which are otherwise the same.
    flowop_define_common-Shows :
        (fuel : ℕ) (inherit head : Option ℕ) (s : Flows R) (xs ys : List ℕ)
        → s.ipc.last flowop < filebench_sizes s.ipc.memsize flowop
        → All (λ a. s.ipc.bitmap flowop a ≡ 1) xs
        → All (λ a. s.ipc.bitmap flowop a ≡ 1) ys
        → length xs ≤ fuel
        → Shows head s (view xs ys s.ipc)
        → (flowop_define_common fuel zeros thread (some str) inherit (some head) instance type s
            ≡ some (none, some head, s))
          ⊎ ((fo : ℕ) × (head' : Option ℕ) × (t : Flows R) × (flowop_define_common fuel zeros thread
                  (some str)
                  inherit
                  (some head)
                  instance
                  type
                  s
                ≡ some (some fo, some head', t))
              × (s.ipc.bitmap flowop fo ≡ 0)
              × Shows head' t (view (xs ++ (fo ∷ [])) (fo ∷ ys) t.ipc)
              × ((t.shm_flowop fo).fo_name ≡ str)
              × ((t.shm_flowop fo).fo_instance ≡ instance)
              × ((t.shm_flowop fo).fo_thread ≡ thread))
    unfolding flowop_define_common
    flowop_define_common-Shows fuel inherit head s xs ys lt used used' lx m =
        elim (malloc_cases s.ipc flowop lt) [
          | inl full ↦ inl (rw (full, flowop_define_common) refl)
          | inr (fo, e, _, free) ↦
              let s' : Flows R = record s { ipc = mark s.ipc flowop fo } in
              let w = not_among s fo xs free used in
              let w' = not_among s fo ys free used' in
              let (head', u, r, shows, same, _, _) =
                append-Shows fuel head fo (new_flowop inherit fo s') xs ys lx m.thread_once
                  (w', m.global_once) w
                  (new_flowop-Entered inherit fo head s' xs ys w w' m.thread m.global) in
              let named = new_flowop-named inherit fo s' in
              inr (
                fo,
                head',
                u,
                define_by fuel fo inherit head head' s u e r,
                free,
                shows,
                ap (λ (o : ℕ → Flowop R). (o fo).fo_name) same ∙ named.0,
                ap (λ (o : ℕ → Flowop R). (o fo).fo_instance) same ∙ named.1,
                ap (λ (o : ℕ → Flowop R). (o fo).fo_thread) same ∙ named.2,
              )
        ]
