-- ===== src/Fileset/Pick.antt =====
-- filebench/fileset.c: fileset_find_entry and fileset_pick, over any AVL tree and any source of
-- random numbers. The proofs are in the children.
pub mod Scan
pub mod Find
pub mod Choose
pub mod Grab
pub mod Outcome
pub mod Exclusive
use filebench_pre_fsl.Base.{
  ℕ, zero, suc, ◌+◌, ◌*◌, ◌%◌, ◌^◌, Bool, true, false, Option, none, some, ◌==◌, if◌then◌else◌,
  update,
}
use filebench_pre_fsl.Base.Int.{ℤ, negsuc, ◌+ℤ◌, is_zero}
use filebench_pre_fsl.Fileset.Avl.{Avl, found}
use filebench_pre_fsl.Fileset.State.{
  Kind, file, dir, leafdir, Entry, Group, Fileset, group, set_group,
}

-- FILESET_PICKUNIQUE (or FILESET_PICKFREE), FILESET_PICKNOEXIST and FILESET_PICKBYINDEX.
pub record PickFlags : Type 0 where
  pub unique : Bool
  pub noexist : Bool
  pub by_index : Bool

-- An `int` handed over as `uint_t`.
abbrev pub to_uint : ℕ → ℕ
to_uint n = n % 2 ^ 32

module _ (a : Avl) where
  unfoldable pub fileset_find_entry : a.Tree → ℕ → Option ℕ
  fileset_find_entry t index = elim (a.avl_find t index) [
    | some e ↦ some e
    | none ↦ elim (a.avl_nearest t index) [ some e ↦ some e | none ↦ a.avl_first t ]
  ]

  -- `atp`
  unfoldable pub pick_tree : Kind → PickFlags → Group a.Tree → a.Tree
  pick_tree dir flags g = g.exist_tree
  pick_tree _ flags g =
      if flags.unique then g.free_tree else if flags.noexist then g.noex_tree else g.exist_tree

  -- AVL_NEXT, or the first entry from the end on.
  unfoldable pub next_or_first : a.Tree → ℕ → Option ℕ
  next_or_first t e = elim (a.avl_next t e) [ some n ↦ some n | none ↦ a.avl_first t ]

  -- The loop over busy entries: `some none` is the jump to `empty`, `none` means that the fuel ran
  -- out.
  unfoldable pub pick_scan : ℕ → a.Tree → (ℕ → Entry) → (start e : ℕ) → Option (Option ℕ)
  pick_scan zero t entries start e = none
  pick_scan (suc fuel) t entries start e =
      if (entries e).busy
      then (elim (next_or_first t e) [
        | none ↦ some none
        | some n ↦ if n == start then some none else pick_scan fuel t entries start n
      ])
      else some (some e)

-- max_entries
unfoldable pub max_entries : {T : Type 0} → Kind → Group T → ℕ
max_entries dir g = 1
max_entries _ g = g.const_entries

-- Whether a pick in rotation uses the rotor of nonexistent entries.
unfoldable pub uses_nerotor : Kind → PickFlags → Bool
uses_nerotor dir flags = false
uses_nerotor _ flags = flags.noexist

-- The existing rotor's slot.
unfoldable pub rotor_slot : Kind → ℕ → ℕ
rotor_slot file tid = tid
rotor_slot _ tid = 0

unfoldable pub rotor : {T : Type 0} → Kind → PickFlags → ℕ → Group T → ℕ
unfolding uses_nerotor rotor_slot
rotor kind flags tid g =
    if uses_nerotor kind flags then g.nerotor else g.exrotor (rotor_slot kind tid)

-- `entry->fse_index + 1`, an `uint_t`.
unfoldable pub set_rotor : {T : Type 0} → Kind → PickFlags → ℕ → Group T → ℕ → Group T
unfolding uses_nerotor rotor_slot
set_rotor kind flags tid g e =
    if uses_nerotor kind flags
    then record g { nerotor = to_uint (e + 1) }
    else record g { exrotor = update g.exrotor (rotor_slot kind tid) (to_uint (e + 1)) }

-- How the first candidate is found.
pub data Choice (T : Type 0) : Type 0 where
  start_at : Group T → ℕ → Choice T
  -- `entry` is NULL
  no_entry : Choice T
  -- the random number failed: NULL is returned with fs_pick_lock held
  returns_locked : Choice T
  -- NULL->fse_index
  fault : Choice T

abbrev pub entry_or_none : {T : Type 0} → Group T → Option ℕ → Choice T
entry_or_none g none = no_entry
entry_or_none g (some e) = start_at g e

pub data Picked (T : Type 0) : Type 0 where
  picked : Fileset T → ℕ → Picked T
  -- NULL, the lock released
  empty : Fileset T → Picked T
  -- blocked in pthread_cond_wait
  waits : Picked T
  null_locked : Picked T
  null_fault : Picked T
  out_of_fuel : Picked T

-- `fs_idle_files--` and FSE_BUSY.
unfoldable pub grab : {T : Type 0} → Group T → ℕ → Group T
grab g e = record g {
  idle = g.idle +ℤ negsuc 0;
  entries = update g.entries e (record (g.entries e) { busy = true });
}

-- The random number of filebench_randomno64(&index64, max_entries, 1, NULL), `none` on error.
module _ (a : Avl) (randomno64 : ℕ → Option ℕ) where
  unfoldable pub choose_unique : Kind → ℕ → Group a.Tree → a.Tree → Choice a.Tree
  choose_unique kind index g t =
      if index == 0
      then (elim (randomno64 (max_entries kind g)) [
        | none ↦ returns_locked
        | some r ↦ entry_or_none g (fileset_find_entry a t (to_uint r))
      ])
      else entry_or_none g (fileset_find_entry a t (to_uint index))

  unfoldable pub choose_rotated : Kind → PickFlags → ℕ → Group a.Tree → a.Tree → Choice a.Tree
  unfolding rotor set_rotor
  choose_rotated kind flags tid g t = elim (fileset_find_entry a t (rotor kind flags tid g)) [
    | none ↦ fault
    | some e ↦ start_at (set_rotor kind flags tid g e) e
  ]

  unfoldable pub choose : Kind → PickFlags → (tid index : ℕ) → Group a.Tree → Choice a.Tree
  unfolding choose_unique choose_rotated
  choose kind flags tid index g =
      let t = pick_tree a kind flags g in
      if flags.unique
      then choose_unique kind index g t
      else if flags.by_index
      then entry_or_none g (fileset_find_entry a t (to_uint index))
      else choose_rotated kind flags tid g t

  -- From the chosen entry on: the loop, and the grab.
  unfoldable pub pick_from : Kind → PickFlags → Fileset a.Tree → Choice a.Tree → Picked a.Tree
  unfolding grab
  pick_from kind flags fs (start_at g e) =
      elim (pick_scan a (2 * g.created + 1) (pick_tree a kind flags g) g.entries e e) [
        | none ↦ out_of_fuel
        | some none ↦ empty (set_group fs kind g)
        | some (some n) ↦ picked (set_group fs kind (grab g n)) n
      ]
  pick_from kind flags fs no_entry = empty fs
  pick_from kind flags fs returns_locked = null_locked
  pick_from kind flags fs fault = null_fault

  unfoldable pub fileset_pick : Fileset a.Tree → Kind → PickFlags → (tid index : ℕ) → Picked a.Tree
  unfolding choose pick_from
  fileset_pick fs kind flags tid index =
      let g = group fs kind in
      if g.listed
      then (if is_zero g.idle
          then waits
          else (if a.avl_is_empty (pick_tree a kind flags g)
              then empty fs
              else pick_from kind flags fs (choose kind flags tid index g)))
      else empty fs
