-- ===== src/Ipc/Alloc.antt =====
-- ipc_malloc and ipc_free on the allocation maps.
use native.Mathlib.Nat.{mul-div_cancel}
use native.Mathlib.Decide.{ℕ_discrete}
use filebench_pre_fsl.Base.{
  ℕ, ◌+◌, ◌-◌, ◌*◌, ◌/◌, ◌<◌, ◌≡◌, refl, sym, ap, ◌∙◌, ◌≢◌, ◌⊎◌, inl, inr, Option, none, some,
  arith, ◌==◌, ltb, Bool-cases, Option-cases, ltb→lt,
}
use filebench_pre_fsl.Ipc.{
  ObjType, ObjType-discrete, avd, filebench_sizes, Shm, scan, set_bit, mark, ipc_malloc, Layout,
  address, free_size, ipc_free,
}
use filebench_pre_fsl.Ipc.Scan.{Taken, Scanned, scan-Scanned}

-- The slots tried before `i` by a scan that starts behind `start`.
abbrev pub TriedBefore : (ℕ → ℕ) → (max start i : ℕ) → Type 0
TriedBefore bits max start i =
    ((start < i) × Taken bits (start + 1) i)
    ⊎ ((i < start) × Taken bits (start + 1) max × Taken bits 0 i)

-- Only the map bit of slot `i` of type `t` differs, and it is `v` now.
abbrev pub OnlyBit : Shm → Shm → ObjType → ℕ → ℕ → Type 0
OnlyBit s s' t i v =
    (s'.bitmap t i ≡ v) × ((u : ObjType) (k : ℕ) → (u ≢ t) ⊎ (k ≢ i) → s'.bitmap u k ≡ s.bitmap u k)

abbrev pub Allocated : Shm → ObjType → Option ℕ × Shm → Type 0
Allocated s t r =
    (i : ℕ) × (r.0 ≡ some i)
    × (i < filebench_sizes s.memsize t)
    × (i ≢ s.last t)
    × (s.bitmap t i ≡ 0)
    × TriedBefore (s.bitmap t) (filebench_sizes s.memsize t) (s.last t) i
    × OnlyBit s r.1 t i 1
    × (r.1.last t ≡ i)
    × ((u : ObjType) → u ≢ t → r.1.last u ≡ s.last u)
    × (r.1.memsize ≡ s.memsize)

-- Every slot but the one handed out last is taken.
abbrev pub Full : Shm → ObjType → Type 0
Full s t = (k : ℕ) → k < filebench_sizes s.memsize t → k ≢ s.last t → s.bitmap t k ≢ 0

abbrev pub Exhausted : Shm → ObjType → Option ℕ × Shm → Type 0
Exhausted s t r = (r ≡ (none, s)) × Full s t

set_bit-OnlyBit : (s : Shm) (t : ObjType) (i v : ℕ) → OnlyBit s (set_bit s t i v) t i v
unfolding set_bit
set_bit-OnlyBit s t i v = (ground arith, λ u k h. ground arith)

abbrev pub the_scan : Shm → ObjType → Option ℕ
the_scan s t =
    scan (filebench_sizes s.memsize t) (s.bitmap t) (filebench_sizes s.memsize t) (s.last t)
      (s.last t)

malloc_found :
    (s : Shm) (t : ObjType) (j : ℕ)
    → the_scan s t ≡ some j
    → j ≢ s.last t
    → ipc_malloc s t ≡ (some j, mark s t j)
unfolding ipc_malloc
malloc_found s t j e ne = rw (e, ipc_malloc) (ground arith)

malloc_refused :
    (s : Shm) (t : ObjType) (j : ℕ)
    → the_scan s t ≡ some j
    → j ≡ s.last t
    → ipc_malloc s t ≡ (none, s)
unfolding ipc_malloc
malloc_refused s t j e eq = rw (e, ipc_malloc) (ground arith)

malloc_nothing : (s : Shm) (t : ObjType) → the_scan s t ≡ none → ipc_malloc s t ≡ (none, s)
unfolding ipc_malloc
malloc_nothing s t e = rw (e, ipc_malloc) refl

mark-OnlyBit :
    (s : Shm) (t : ObjType) (i : ℕ) → OnlyBit s (mark s t i) t i 1 × ((mark s t i).last t ≡ i)
unfolding mark
mark-OnlyBit s t i = (set_bit-OnlyBit s t i 1, ground arith)

mark-last : (s : Shm) (t : ObjType) (i : ℕ) (u : ObjType) → u ≢ t → (mark s t i).last u ≡ s.last u
unfolding mark set_bit
mark-last s t i u ne = ground arith

mark-memsize : (s : Shm) (t : ObjType) (i : ℕ) → (mark s t i).memsize ≡ s.memsize
unfolding mark set_bit
mark-memsize s t i = refl

Allocated-mark :
    (s : Shm) (t : ObjType) (i : ℕ)
    → i < filebench_sizes s.memsize t
    → i ≢ s.last t
    → s.bitmap t i ≡ 0
    → TriedBefore (s.bitmap t) (filebench_sizes s.memsize t) (s.last t) i
    → Allocated s t (some i, mark s t i)
Allocated-mark s t i h ne free tried = (
  i,
  refl,
  h,
  ne,
  free,
  tried,
  (mark-OnlyBit s t i).0,
  (mark-OnlyBit s t i).1,
  mark-last s t i,
  mark-memsize s t i,
)

malloc_Scanned :
    (s : Shm) (t : ObjType)
    → s.last t < filebench_sizes s.memsize t
    → Scanned (s.bitmap t) (filebench_sizes s.memsize t) (s.last t) (the_scan s t)
    → Allocated s t (ipc_malloc s t) ⊎ Exhausted s t (ipc_malloc s t)
malloc_Scanned s t lt (inl (j, e, h, hm, free, tried)) =
    rw (malloc_found s t j e (omega arith))
      (inl (Allocated-mark s t j hm (omega arith) free (inl (h, tried))))
malloc_Scanned s t lt (inr (j, e, h, taken, before, stop)) = elim (Bool-cases (j == s.last t)) [
  | inl same ↦
      let same' : j ≡ s.last t = ground arith in
      rw (malloc_refused s t j e same') (
        inr (
          refl,
          λ k p ne. elim (Bool-cases (ltb k j)) [
            | inl low ↦ before k (omega arith) (ltb→lt k j low)
            | inr high ↦ taken k (ground arith) p
          ],
        ))
  | inr other ↦
      let ne : j ≢ s.last t = ground arith in
      rw (malloc_found s t j e ne) (
        inl
          (Allocated-mark s t j (omega arith) ne (ground arith) (inr (omega arith, taken, before))))
]

-- Where the last index lies in the map, ipc_malloc hands out a free slot other than the one handed
-- out last, the first such in circular order, and changes that map bit and its type's last index
-- alone; or it refuses and changes nothing, and then every slot but the last one handed out is
-- taken.
pub ipc_malloc_outcome :
    (s : Shm) (t : ObjType)
    → s.last t < filebench_sizes s.memsize t
    → Allocated s t (ipc_malloc s t) ⊎ Exhausted s t (ipc_malloc s t)
ipc_malloc_outcome s t h =
    malloc_Scanned s t h (scan-Scanned (s.bitmap t) (filebench_sizes s.memsize t) (s.last t) h)

-- A refusal means that no slot is left.
pub malloc_full :
    (s : Shm) (t : ObjType)
    → s.last t < filebench_sizes s.memsize t
    → ipc_malloc s t ≡ (none, s)
    → Full s t
malloc_full s t lt e = elim (ipc_malloc_outcome s t lt) [
  | inr (_, full) ↦ full
  | inl (i, found, _, _, _, _, _, _, _, _) ↦ absurd (cc)
]

-- A call of ipc_malloc changes nothing, or marks the free slot that it returns.
pub malloc_cases :
    (s : Shm) (t : ObjType)
    → s.last t < filebench_sizes s.memsize t
    → (ipc_malloc s t ≡ (none, s))
      ⊎ ((j : ℕ) × (ipc_malloc s t ≡ (some j, mark s t j))
          × (j < filebench_sizes s.memsize t)
          × (s.bitmap t j ≡ 0))
malloc_cases s t h = elim (ipc_malloc_outcome s t h) [
  | inr (refused, _) ↦ inl refused
  | inl (i, found, lt, _, free, _, _, _, _, _) ↦ elim (Option-cases (the_scan s t)) [
    | inl nothing ↦ absurd (cc (malloc_nothing s t nothing))
    | inr (j, e) ↦ elim (Bool-cases (j == s.last t)) [
      | inl same ↦ absurd (cc (malloc_refused s t j e (ground arith)))
      | inr other ↦
          let marked : ipc_malloc s t ≡ (some j, mark s t j) =
            malloc_found s t j e (ground arith) in
          let e' : i ≡ j = cc in inr (j, marked, rw (← e') lt, rw (← e') free)
    ]
  ]
]

item_of_address :
    (l : Layout) (t : ObjType) (i : ℕ)
    → 0 < l.size_of t
    → (address l t i - l.base t) / l.size_of t ≡ i
unfolding address
item_of_address l t i h =
    ap (λ n. n / l.size_of t) (omega arith) ∙ mul-div_cancel i {n = l.size_of t} h

free_size_lem : (l : Layout) (t : ObjType) → t ≢ avd → free_size l t ≡ l.size_of t
unfolding free_size
free_size_lem l avd h = absurd (h refl)
free_size_lem l _ h = refl

free-OnlyBit :
    (l : Layout) (s : Shm) (t : ObjType) (i : ℕ)
    → t ≢ avd
    → 0 < l.size_of t
    → OnlyBit s (ipc_free l s t (some (address l t i))) t i 0
unfolding ipc_free
free-OnlyBit l s t i ne h =
    rw (free_size_lem l t ne, item_of_address l t i h) (set_bit-OnlyBit s t i 0)

OnlyBit-undo :
    (s s' s'' : Shm) (t : ObjType) (i v : ℕ)
    → OnlyBit s s' t i v
    → s.bitmap t i ≡ 0
    → OnlyBit s' s'' t i 0
    → (u : ObjType) (k : ℕ) → s''.bitmap u k ≡ s.bitmap u k
OnlyBit-undo s s' s'' t i v first free second u k = elim (ObjType-discrete u t) [
  | no other ↦ second.1 u k (inl other) ∙ first.1 u k (inl other)
  | yes same ↦ elim (ℕ_discrete k i) [
    | no other ↦ second.1 u k (inr other) ∙ first.1 u k (inr other)
    | yes same' ↦ rw (same, same') (second.0 ∙ sym free)
  ]
]

-- Freeing the object that ipc_malloc returned restores every allocation map, for all types but
-- attribute descriptors.
pub ipc_free-ipc_malloc :
    (l : Layout) (s s' : Shm) (t : ObjType) (i : ℕ)
    → t ≢ avd
    → 0 < l.size_of t
    → s.last t < filebench_sizes s.memsize t
    → ipc_malloc s t ≡ (some i, s')
    → (u : ObjType) (k : ℕ) → (ipc_free l s' t (some (address l t i))).bitmap u k ≡ s.bitmap u k
ipc_free-ipc_malloc l s s' t i ne pos lt e = elim (ipc_malloc_outcome s t lt) [
  | inl (j, found, _, _, free, _, bit, _, _, _) ↦
      let e' : j ≡ i = cc in
      OnlyBit-undo s s' (ipc_free l s' t (some (address l t i))) t i 1
        (rw (← e', ← ap (λ r. r.1) e) bit) (rw (← e') free) (free-OnlyBit l s' t i ne pos)
  | inr (refused, _) ↦ cc
]

-- An attribute descriptor's `sizeof` is that of a pointer in ipc_free: where a descriptor is as
-- large as two pointers, freeing descriptor `i` clears slot `2 * i` and leaves every other slot,
-- `i` included, as it was.
pub ipc_free_avd :
    (l : Layout) (s : Shm) (i : ℕ)
    → 0 < l.size_of_pointer
    → l.size_of avd ≡ 2 * l.size_of_pointer
    → OnlyBit s (ipc_free l s avd (some (address l avd i))) avd (2 * i) 0
unfolding ipc_free free_size address
ipc_free_avd l s i h e = rw item (set_bit-OnlyBit s avd (2 * i) 0)
  where
    item : (l.base avd + i * l.size_of avd - l.base avd) / l.size_of_pointer ≡ 2 * i
    item =
        ap (λ n. n / l.size_of_pointer) (omega (arith, ap (λ (n : ℕ). i * n) e))
        ∙ mul-div_cancel (2 * i) {n = l.size_of_pointer} h
