-- ===== src/Ipc.antt =====
-- filebench/ipc.c and ipc.h: the objects of the shared region and their allocation maps.
pub mod Scan
pub mod Alloc
pub mod Strings
pub mod Semids
use filebench_pre_fsl.Base.{
  ℕ, zero, suc, ◌+◌, ◌-◌, ◌*◌, ◌/◌, Bool, true, false, Option, none, some, ◌==◌, leb, ltb,
  if◌then◌else◌, update,
}
use mathlib.Core.Logic.{ite}

-- FILEBENCH_PROCFLOW and the other type numbers, in their order.
pub data ObjType : Type 0 where
  procflow threadflow flowop avd variable fileset filesetentry randdist : ObjType

unfoldable pub ObjType-discrete : Discrete ObjType
ObjType-discrete = hlevel

-- FILEBENCH_MEMSIZE is 4096 with the process model and 2048 without: an argument here.
unfoldable pub filebench_sizes : ℕ → ObjType → ℕ
filebench_sizes memsize procflow = memsize
filebench_sizes memsize threadflow = 64 * memsize
filebench_sizes memsize flowop = 64 * memsize
filebench_sizes memsize avd = memsize * 2
filebench_sizes memsize variable = memsize
filebench_sizes memsize fileset = memsize
filebench_sizes memsize filesetentry = 1024 * 1024
filebench_sizes memsize randdist = memsize / 4

-- The fields of filebench_shm that the allocators use.
pub record Shm : Type 0 where
  pub memsize : ℕ
  -- shm_bitmap[type][i]
  pub bitmap : ObjType → ℕ → ℕ
  -- shm_lastbitmapindex[type]
  pub last : ObjType → ℕ

-- `i++; if (i >= max) i = 0;`
abbrev pub next_slot : ℕ → ℕ → ℕ
next_slot max i = if leb max (i + 1) then 0 else i + 1

-- The `do … while` of ipc_malloc, on fuel: `none` means that the fuel ran out.
unfoldable pub scan : ℕ → (ℕ → ℕ) → (max start i : ℕ) → Option ℕ
scan zero bits max start i = none
scan (suc fuel) bits max start i =
    let j = next_slot max i in
    let rest = scan fuel bits max start j in
    if bits j == 0 then some j else if j == start then some j else rest

unfoldable pub set_bit : Shm → ObjType → ℕ → ℕ → Shm
set_bit s t i v = record s {
  bitmap = λ u. ite (ObjType-discrete t u) (update (s.bitmap u) i v) (s.bitmap u);
}

unfoldable pub mark : Shm → ObjType → ℕ → Shm
unfolding set_bit
mark s t i =
    let s' = set_bit s t i 1 in record s' { last = λ u. ite (ObjType-discrete t u) i (s.last u) }

-- The slot that ipc_malloc hands out, or `none` for NULL, and the new state. The scan goes once
-- round the map, so `max` rounds are enough.
unfoldable pub ipc_malloc : Shm → ObjType → Option ℕ × Shm
unfolding mark
ipc_malloc s t =
    let max = filebench_sizes s.memsize t in
    let start = s.last t in
    elim (scan max (s.bitmap t) max start start) [
      | none ↦ (none, s)
      | some i ↦ if i == start then (none, s) else (some i, mark s t i)
    ]

-- The C sizes: of the elements of each array, and of a pointer.
pub record Layout : Type 0 where
  pub size_of : ObjType → ℕ
  pub size_of_pointer : ℕ
  pub base : ObjType → ℕ

-- The address of an array's element, as the compiler computes it.
unfoldable pub address : Layout → ObjType → ℕ → ℕ
address l t i = l.base t + i * l.size_of t

-- The `size` of ipc_free's switch: `avd_t` is a pointer type, so its `sizeof` is a pointer's.
unfoldable pub free_size : Layout → ObjType → ℕ
free_size l avd = l.size_of_pointer
free_size l t = l.size_of t

-- Freeing NULL only logs.
unfoldable pub ipc_free : Layout → Shm → ObjType → Option ℕ → Shm
unfolding free_size set_bit
ipc_free l s t none = s
ipc_free l s t (some addr) = set_bit s t ((addr - l.base t) / free_size l t) 0
