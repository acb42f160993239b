-- ===== src/Flows/Runtime/Made.antt =====
-- The lists that flowop_create_runtime_flowops is to leave, and what fo_init is to keep.
use filebench_pre_fsl.Base.{
  ℕ, ◌≡◌, refl, sym, ◌≢◌, Option, none, some, List, [], ◌∷◌, ◌++◌, All, arith, ◌==◌, false, true,
}
use filebench_pre_fsl.Base.Int.{pos}
use filebench_pre_fsl.Ipc.{flowop}
use filebench_pre_fsl.Ipc.Alloc.{Full}
use filebench_pre_fsl.Flows.{Flowop, Flows}
use filebench_pre_fsl.Flows.Chain.{Chain, Without, first}
use filebench_pre_fsl.Flows.Delete.{view, Shows}
use filebench_pre_fsl.Flows.Runtime.{Creation, created, failed, reset_head}

-- No slot of the second list is in the first.
abbrev pub Apart : (zs list : List ℕ) → Type 0
Apart zs list = All (λ a. Without a zs) list

pub reset_head_other : (zs : List ℕ) (fo : ℕ) → Without fo zs → reset_head (first zs) fo ≡ first zs
unfolding reset_head
reset_head_other [] fo w = refl
reset_head_other (z ∷ zs) fo w =
    let other : (fo == z) ≡ false = ground (arith, w.0) in rw other refl

pub reset_head_same : (fo : ℕ) → reset_head (some fo) fo ≡ none
unfolding reset_head
reset_head_same fo = let same : (fo == fo) ≡ true = ground arith in rw same refl

pub Without-append : (a fo : ℕ) (zs : List ℕ) → Without a zs → a ≢ fo → Without a (zs ++ (fo ∷ []))
Without-append a fo [] w ne = ((λ e. ne (sym e)), tt)
Without-append a fo (z ∷ zs) w ne = (w.0, Without-append a fo zs w.1 ne)

pub Apart-append :
    (fo : ℕ) (zs list : List ℕ) → Apart zs list → Without fo list → Apart (zs ++ (fo ∷ [])) list
Apart-append fo zs [] h w = tt
Apart-append fo zs (a ∷ list) h w =
    (Without-append a fo zs h.0 w.0, Apart-append fo zs list h.1 w.1)

-- Flowops put in front of a list one after the other.
abbrev pub onto : (ns ys : List ℕ) → List ℕ
onto [] ys = ys
onto (n ∷ ns) ys = onto ns (n ∷ ys)

module _ {R : Type 0} where
  -- What the initialization of a flowop must keep: the lists, the slots in use, and of the flowops all but the rest of
  -- the one that it is for.
  pub record KeepsLists (initflow : ℕ → Flows R → Flows R) : Type 0 where
    pub ipc : (n : ℕ) (t : Flows R) → (initflow n t).ipc ≡ t.ipc
    pub exec : (n : ℕ) (t : Flows R) → (initflow n t).fo_exec_next ≡ t.fo_exec_next
    pub next : (n : ℕ) (t : Flows R) → (initflow n t).fo_next ≡ t.fo_next
    pub list : (n : ℕ) (t : Flows R) → (initflow n t).shm_flowoplist ≡ t.shm_flowoplist
    pub others : (n b : ℕ) (t : Flows R) → b ≢ n → (initflow n t).shm_flowop b ≡ t.shm_flowop b
    pub name :
        (n : ℕ) (t : Flows R) → ((initflow n t).shm_flowop n).fo_name ≡ (t.shm_flowop n).fo_name
    pub instance_kept :
        (n : ℕ) (t : Flows R)
        → ((initflow n t).shm_flowop n).fo_instance ≡ (t.shm_flowop n).fo_instance
    pub thread :
        (n : ℕ) (t : Flows R) → ((initflow n t).shm_flowop n).fo_thread ≡ (t.shm_flowop n).fo_thread

  -- A flowop of a thread, named like another.
  abbrev pub Runs : Option ℕ → (new old : Flowop R) → Type 0
  Runs thread new old =
      (new.fo_name ≡ old.fo_name) × (new.fo_instance ≡ pos 1) × (new.fo_thread ≡ thread)

  -- The new flowops, one for each old one.
  abbrev pub Match : Option ℕ → (now then' : ℕ → Flowop R) → (ns list : List ℕ) → Type 0
  Match thread now then' [] [] = Unit
  Match thread now then' (n ∷ ns) (m ∷ list) =
      Runs thread (now n) (then' m) × Match thread now then' ns list
  Match thread now then' _ _ = ⊥

  -- The flowops of all slots in use are what they were, and the links of those outside a list.
  abbrev pub Kept : (s t : Flows R) → List ℕ → Type 0
  Kept s t zs =
      (b : ℕ)
      → s.ipc.bitmap flowop b ≡ 1
      → (t.shm_flowop b ≡ s.shm_flowop b) × (Without b zs → t.fo_exec_next b ≡ s.fo_exec_next b)

  -- The state shows the new flowops behind `zs` in the thread's list, and before `ys` in the global
  -- one; the old ones are as they were.
  abbrev pub MadeFor : Option ℕ → (s t : Flows R) → (zs ns list ys : List ℕ) → Type 0
  MadeFor thread s t zs ns list ys =
      Shows (first (zs ++ ns)) t (view (zs ++ ns) (onto ns ys) t.ipc)
      × Match thread t.shm_flowop s.shm_flowop ns list
      × Kept s t zs

  -- All copied, or, where every slot but the one handed out last is taken, those of a first part.
  pub data Makes (thread : Option ℕ) (s : Flows R) (zs list ys : List ℕ) (r : Creation R)
      : Type 0 where
    all_made :
        (t : Flows R) (ns : List ℕ)
        → r ≡ created (first (zs ++ ns)) t
        → MadeFor thread s t zs ns list ys
        → Makes thread s zs list ys r
    some_made :
        (t : Flows R) (ns part rest : List ℕ)
        → r ≡ failed (first (zs ++ ns)) t
        → list ≡ part ++ rest
        → rest ≢ []
        → Full t.ipc flowop
        → MadeFor thread s t zs ns part ys
        → Makes thread s zs list ys r

pub All-map : (P Q : ℕ → Type 0) (list : List ℕ) → ((a : ℕ) → P a → Q a) → All P list → All Q list
All-map P Q [] f h = tt
All-map P Q (a ∷ list) f h = (f a h.0, All-map P Q list f h.1)

pub All-both :
    (P Q S : ℕ → Type 0) (list : List ℕ)
    → ((a : ℕ) → P a → Q a → S a)
    → All P list
    → All Q list
    → All S list
All-both P Q S [] f h k = tt
All-both P Q S (a ∷ list) f h k = (f a h.0 k.0, All-both P Q S list f h.1 k.1)

pub All-append : (P : ℕ → Type 0) (zs : List ℕ) (n : ℕ) → All P zs → P n → All P (zs ++ (n ∷ []))
All-append P [] n h p = (p, tt)
All-append P (z ∷ zs) n h p = (h.0, All-append P zs n h.1 p)

pub Chain-same :
    (next next' : ℕ → Option ℕ) (h : Option ℕ) (list : List ℕ)
    → All (λ b. next' b ≡ next b) list
    → Chain next h list
    → Chain next' h list
Chain-same next next' h [] same c = c
Chain-same next next' h (a ∷ list) same c =
    (c.0, rw (same.0) (Chain-same next next' (next a) list same.1 c.1))
