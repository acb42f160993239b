-- ===== src/Ipc/Strings.antt =====
-- filebench/ipc.c: the string and path regions of shared memory (ipc_stralloc, ipc_pathalloc,
-- ipc_freepaths). A string is the list of its bytes; a region is its bytes by offset.
use filebench_pre_fsl.Base.{
  ℕ, suc, ◌+◌, ◌≤◌, ◌<◌, ◌≡◌, refl, sym, ap, ◌∙◌, ◌≢◌, ◌⊎◌, inl, inr, List, [], ◌∷◌, Option, none,
  some, arith, ltb, Bool-cases, ltb→lt, if◌then◌else◌, length, update, All,
}

pub record Region : Type 0 where
  -- shm_string_ptr or shm_path_ptr, as an offset from the region's first byte
  pub next : ℕ
  pub bytes : ℕ → ℕ

-- strncpy(at, string, strlen(string)): no terminating zero is written.
unfoldable pub copy : List ℕ → ℕ → (ℕ → ℕ) → ℕ → ℕ
copy [] at mem = mem
copy (c ∷ cs) at mem = copy cs (at + 1) (update mem at c)

-- The pointer moves before the test, so also when NULL is returned.
unfoldable pub ipc_stralloc : ℕ → Region → List ℕ → Option ℕ × Region
unfolding copy
ipc_stralloc memory r str =
    let moved = r.next + (length str + 1) in
    if ltb memory moved
    then (none, record r { next = moved })
    else (some r.next, record { next = moved; bytes = copy str r.next r.bytes })

-- The same code on the path region.
unfoldable pub ipc_pathalloc : ℕ → Region → List ℕ → Option ℕ × Region
unfolding copy
ipc_pathalloc memory r path =
    let moved = r.next + (length path + 1) in
    if ltb memory moved
    then (none, record r { next = moved })
    else (some r.next, record { next = moved; bytes = copy path r.next r.bytes })

unfoldable pub ipc_freepaths : Region → Region
ipc_freepaths r = record r { next = 0 }

-- A C string at an address: its bytes, none of them zero, and a zero behind them.
abbrev pub Holds : (ℕ → ℕ) → ℕ → List ℕ → Type 0
Holds mem p [] = mem p ≡ 0
Holds mem p (c ∷ cs) = (mem p ≡ c) × (c ≢ 0) × Holds mem (p + 1) cs

-- Nothing has been written from the pointer on.
abbrev pub IsFresh : Region → Type 0
IsFresh r = (k : ℕ) → r.next ≤ k → r.bytes k ≡ 0

copy_outside :
    (cs : List ℕ) (at : ℕ) (mem : ℕ → ℕ) (k : ℕ)
    → (k < at) ⊎ (at + length cs ≤ k)
    → copy cs at mem k ≡ mem k
unfolding copy
copy_outside [] at mem k h = refl
copy_outside (c ∷ cs) at mem k h = ground (arith, copy_outside cs (at + 1) (update mem at c) k)

copy_holds :
    (cs : List ℕ) (at : ℕ) (mem : ℕ → ℕ)
    → All (λ c. c ≢ 0) cs
    → mem (at + length cs) ≡ 0
    → Holds (copy cs at mem) at cs
unfolding copy
copy_holds [] at mem h z = ap mem (omega arith) ∙ z
copy_holds (c ∷ cs) at mem h z = (
  copy_outside cs (at + 1) (update mem at c) at (inl (omega arith)) ∙ ground arith,
  h.0,
  copy_holds cs (at + 1) (update mem at c) h.1 (ground (arith, ap mem (next_zero at cs))),
)
  where
    next_zero : (at : ℕ) (cs : List ℕ) → at + 1 + length cs ≡ at + suc (length cs)
    next_zero at cs = omega arith

Holds-ext :
    (old : List ℕ) (mem mem' : ℕ → ℕ) (p : ℕ)
    → ((k : ℕ) → p ≤ k → k < p + length old + 1 → mem' k ≡ mem k)
    → Holds mem p old
    → Holds mem' p old
Holds-ext [] mem mem' p same h = same p (omega arith) (omega arith) ∙ h
Holds-ext (c ∷ cs) mem mem' p same h = (
  same p (omega arith) (omega arith) ∙ h.0,
  h.1,
  Holds-ext cs mem mem' (p + 1) (λ k a b. same k (omega arith) (omega arith)) h.2,
)

-- A string that has been placed at the pointer of a region.
pub record Stored (memory : ℕ) (r r' : Region) (str : List ℕ) (p : ℕ) : Type 0 where
  pub start : p ≡ r.next
  pub end : r'.next ≡ p + length str + 1
  pub fits : r'.next ≤ memory
  pub stored : Holds r'.bytes p str
  pub kept :
      (q : ℕ) (old : List ℕ) → q + length old < r.next → Holds r.bytes q old → Holds r'.bytes q old
  pub fresh : IsFresh r'

after_store : Region → List ℕ → Region
after_store r str = record { next = r.next + (length str + 1); bytes = copy str r.next r.bytes }

Stored-after_store :
    (memory : ℕ) (r : Region) (str : List ℕ)
    → IsFresh r
    → All (λ c. c ≢ 0) str
    → r.next + (length str + 1) ≤ memory
    → Stored memory r (after_store r str) str r.next
unfolding after_store
Stored-after_store memory r str fresh plain fits = record {
  start = refl;
  end = omega arith;
  fits = fits;
  stored = copy_holds str r.next r.bytes plain (fresh (r.next + length str) (omega arith));
  kept = λ q old h.
      Holds-ext old r.bytes (copy str r.next r.bytes) q
        (λ k a b. copy_outside str r.next r.bytes k (inl (omega arith)));
  fresh = λ k h. copy_outside str r.next r.bytes k (inr (omega arith)) ∙ fresh k (omega arith);
}

stralloc_cases :
    (memory : ℕ) (r : Region) (str : List ℕ)
    → ((ipc_stralloc memory r str ≡ (some r.next, after_store r str))
        × (r.next + (length str + 1) ≤ memory))
      ⊎ ((ipc_stralloc memory r str ≡ (none, record r { next = r.next + (length str + 1) }))
          × (memory < r.next + (length str + 1)))
unfolding ipc_stralloc after_store
stralloc_cases memory r str = elim (Bool-cases (ltb memory (r.next + (length str + 1)))) [
  | inl over ↦ inr (rw over refl, ltb→lt memory _ over)
  | inr fits ↦ inl (rw fits refl, ground arith)
]

-- In a region that is unwritten from its pointer on, a successful ipc_stralloc of a string without
-- zeros returns the old pointer and moves it behind the string and its zero, within the region. The
-- string stands there, terminated, strings that ended before it still stand, and what lies ahead is
-- still unwritten.
pub ipc_stralloc-Stored :
    (memory : ℕ) (r r' : Region) (str : List ℕ) (p : ℕ)
    → IsFresh r
    → All (λ c. c ≢ 0) str
    → ipc_stralloc memory r str ≡ (some p, r')
    → Stored memory r r' str p
ipc_stralloc-Stored memory r r' str p fresh plain e = elim (stralloc_cases memory r str) [
  | inl (found, fits) ↦
      let ep : r.next ≡ p = cc in
      let er : after_store r str ≡ r' = cc in
      rw (← ep, ← er) (Stored-after_store memory r str fresh plain fits)
  | inr (refused, _) ↦ cc
]

pathalloc-stralloc :
    (memory : ℕ) (r : Region) (path : List ℕ)
    → ipc_pathalloc memory r path ≡ ipc_stralloc memory r path
unfolding ipc_pathalloc ipc_stralloc
pathalloc-stralloc memory r path = refl

pathalloc_past_end :
    (memory : ℕ) (r : Region) (path : List ℕ)
    → memory < r.next
    → ((ipc_pathalloc memory r path).0 ≡ none) × (memory < (ipc_pathalloc memory r path).1.next)
pathalloc_past_end memory r path h =
    rw (pathalloc-stralloc memory r path) (elim (stralloc_cases memory r path) [
      | inl (_, fits) ↦ absurd (omega arith)
      | inr (e, _) ↦ rw e (refl, omega arith)
    ])

-- The results of allocating one path after another.
pub pathalloc_all : ℕ → Region → List (List ℕ) → List (Option ℕ)
pathalloc_all memory r [] = []
pathalloc_all memory r (path ∷ paths) =
    let (p, r') = ipc_pathalloc memory r path in p ∷ pathalloc_all memory r' paths

pathalloc_all_fails :
    (memory : ℕ) (r : Region) (paths : List (List ℕ))
    → memory < r.next
    → All (λ p. p ≡ none) (pathalloc_all memory r paths)
unfolding pathalloc_all
pathalloc_all_fails memory r [] h = tt
pathalloc_all_fails memory r (path ∷ paths) h = (
  (pathalloc_past_end memory r path h).0,
  pathalloc_all_fails memory (ipc_pathalloc memory r path).1 paths
      (pathalloc_past_end memory r path h).1,
)

-- Once a path could not be allocated, every later allocation fails too, however short its path,
-- for as long as ipc_freepaths is not called.
ipc_pathalloc_sticky :
    (memory : ℕ) (r r' : Region) (path : List ℕ) (later : List (List ℕ))
    → ipc_pathalloc memory r path ≡ (none, r')
    → All (λ p. p ≡ none) (pathalloc_all memory r' later)
ipc_pathalloc_sticky memory r r' path later e =
    pathalloc_all_fails memory r' later (elim (stralloc_cases memory r path) [
      | inl (found, _) ↦ cc (pathalloc-stralloc memory r path)
      | inr (refused, h) ↦
          let moved : r'.next ≡ r.next + (length path + 1) =
            ap (λ s. s.1.next) (sym e ∙ pathalloc-stralloc memory r path ∙ refused) in
          omega arith
    ])

Holds-end : (mem : ℕ → ℕ) (p : ℕ) (cs : List ℕ) → Holds mem p cs → mem (p + length cs) ≡ 0
Holds-end mem p [] h = ap mem (omega arith) ∙ h
Holds-end mem p (c ∷ cs) h = ap mem (omega arith) ∙ Holds-end mem (p + 1) cs h.2

-- ipc_freepaths leaves the old bytes. If the first path after it is so short that a byte of an
-- older path follows it, the allocated copy is not terminated: it is another string.
ipc_freepaths_stale :
    (memory : ℕ) (r r' : Region) (path : List ℕ) (p : ℕ)
    → r.bytes (length path) ≢ 0
    → ipc_pathalloc memory (ipc_freepaths r) path ≡ (some p, r')
    → ¬ Holds r'.bytes p path
unfolding ipc_freepaths after_store
ipc_freepaths_stale memory r r' path p old e h =
    elim (stralloc_cases memory (ipc_freepaths r) path) [
      | inl (found, _) ↦
          let both = sym e ∙ pathalloc-stralloc memory (ipc_freepaths r) path ∙ found in
          let at : p ≡ 0 = cc in
          let state : r'.bytes ≡ copy path 0 r.bytes = ap (λ s. s.1.bytes) both in
          let ended : copy path 0 r.bytes (length path) ≡ 0 =
            ap (λ (f : ℕ → ℕ). f (length path)) (sym state)
            ∙ ap r'.bytes (omega arith)
            ∙ Holds-end r'.bytes p path h in
          old (sym (copy_outside path 0 r.bytes (length path) (inr (omega arith))) ∙ ended)
      | inr (refused, _) ↦ cc (pathalloc-stralloc memory (ipc_freepaths r) path)
    ]
