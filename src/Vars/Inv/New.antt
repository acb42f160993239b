-- ===== src/Vars/Inv/New.antt =====
-- filebench/vars.c: what var_alloc_cmn leaves: a slot that no list had, named and listed.
use filebench_pre_fsl.Base.{
  update_same, update_other, ℕ, ◌<◌, ◌≡◌, refl, ap, ◌∙◌, ◌≢◌, ◌⊎◌, inl, inr, Option, none, some,
  List, All, update, Option-cases, arith,
}
use filebench_pre_fsl.Ipc.{Shm, filebench_sizes, variable}
use filebench_pre_fsl.Ipc.Alloc.{malloc_cases}
use filebench_pre_fsl.Ipc.Strings.{Region, ipc_stralloc}
use filebench_pre_fsl.Vars.{
  Str, Scope, global, dynamic, random, local, Var, zeroed, Shared, set_var, enlist, name_var,
  var_alloc_cmn, var_find_list_only,
}
use filebench_pre_fsl.Vars.Find.{find_ext, All-map}
use filebench_pre_fsl.Vars.Inv.{Fits, Used, Sound, write-Sound}
use filebench_pre_fsl.Vars.Inv.Alloc.{
  with_slot, with_slot-Sound, strings-Sound, IsNew, enlist-Sound, mark-used,
}

module _ {D : Type 0} where
  abbrev pub new_var : Str → Scope → Var D
  new_var str sc = record zeroed { name = str; scope = sc }

  -- The new variable in its slot, before it is listed.
  abbrev pub placed : Shared D → Scope → ℕ → Str → Region → Shared D
  placed s sc a str r = set_var (record (with_slot s variable a) { strings = r }) a (new_var str sc)

  pub not_listed :
      (s : Shared D) (a : ℕ) (list : List ℕ)
      → s.ipc.bitmap variable a ≡ 0
      → All (Used s) list
      → All (λ b. b ≢ a) list
  not_listed s a list free used =
      All-map (Used s) (λ b. b ≢ a) list
        (λ b h e.
          let clash : s.ipc.bitmap variable b ≡ 0 = ap (s.ipc.bitmap variable) e ∙ free in
          omega arith)
        used

  names_kept :
      (vars : ℕ → Var D) (a : ℕ) (v : Var D) (list : List ℕ)
      → All (λ b. b ≢ a) list
      → All (λ b. (update vars a v b).name ≡ (vars b).name) list
  names_kept vars a v list h =
      All-map (λ b. b ≢ a) (λ b. (update vars a v b).name ≡ (vars b).name) list
        (λ b ne. ap (λ (w : Var D). w.name) (update_other vars a b v ne)) h

  -- Writing a slot that is not listed does not change what is found.
  pub find-update_unlisted :
      (vars : ℕ → Var D) (a : ℕ) (v : Var D) (str : Str) (list : List ℕ)
      → All (λ b. b ≢ a) list
      → var_find_list_only (update vars a v) str list ≡ var_find_list_only vars str list
  find-update_unlisted vars a v str list h =
      find_ext vars (update vars a v) str list (names_kept vars a v list h)

  write_new-Sound :
      (s : Shared D) (a : ℕ) (r : Region) (v : Var D)
      → a < filebench_sizes s.ipc.memsize variable
      → s.ipc.bitmap variable a ≡ 0
      → Fits v.set_to v.val
      → Sound s
      → Sound (set_var (record (with_slot s variable a) { strings = r }) a v)
  write_new-Sound s a r v lt free fits sound =
      write-Sound (record (with_slot s variable a) { strings = r }) a v
        (names_kept s.vars a v s.shm_var_list (not_listed s a s.shm_var_list free sound.used_vars))
        fits (strings-Sound (with_slot s variable a) r (with_slot-Sound s variable a lt sound))

  still_new :
      (s : Shared D) (sc : Scope) (a : ℕ) (str : Str) (r : Region)
      → s.ipc.bitmap variable a ≡ 0
      → Sound s
      → var_find_list_only s.vars str s.shm_var_list ≡ none
      → var_find_list_only
          (placed s sc a str r).vars
          (((placed s sc a str r).vars a).name)
          s.shm_var_list
        ≡ none
  unfolding set_var
  still_new s sc a str r free sound new =
      ap
        (λ (w : Var D). var_find_list_only (update s.vars a (new_var str sc)) w.name s.shm_var_list)
        (update_same s.vars a (new_var str sc))
      ∙ find-update_unlisted s.vars a (new_var str sc) str s.shm_var_list
          (not_listed s a s.shm_var_list free sound.used_vars)
      ∙ new

  placed-IsNew :
      (s : Shared D) (sc : Scope) (a : ℕ) (str : Str) (r : Region)
      → s.ipc.bitmap variable a ≡ 0
      → Sound s
      → IsNew s sc str
      → IsNew (placed s sc a str r) sc (((placed s sc a str r).vars a).name)
  unfolding set_var
  placed-IsNew s global a str r free sound new = still_new s global a str r free sound new
  placed-IsNew s random a str r free sound new = still_new s random a str r free sound new
  placed-IsNew s dynamic a str r free sound new = tt
  placed-IsNew s local a str r free sound new = tt

  -- The slot was free, and is the new variable's; or no variable was added.
  abbrev pub Outcome : Shared D → Str → Scope → Type 0
  Outcome s str sc =
      ((s' : Shared D) × (var_alloc_cmn str sc s ≡ (none, s')) × Sound s')
      ⊎ ((a : ℕ) × (r : Region) × (var_alloc_cmn str sc s
            ≡ (some a, enlist sc a (placed s sc a str r)))
          × (s.ipc.bitmap variable a ≡ 0)
          × Sound (placed s sc a str r)
          × Used (placed s sc a str r) a)

  named :
      (s : Shared D) (str : Str) (sc : Scope) (a : ℕ)
      → a < filebench_sizes s.ipc.memsize variable
      → s.ipc.bitmap variable a ≡ 0
      → Sound s
      → var_alloc_cmn str sc s ≡ name_var str sc a (with_slot s variable a)
      → Outcome s str sc
  unfolding name_var
  named s str sc a lt free sound e =
      elim (Option-cases ((ipc_stralloc s.string_memory s.strings str).0)) [
        | inl full ↦ inl (
          set_var (record (with_slot s variable a) { strings = r }) a
              (record zeroed { scope = sc }),
          e ∙ rw (full, name_var) refl,
          write_new-Sound s a r (record zeroed { scope = sc }) lt free tt sound,
        )
        | inr (p, room) ↦ inr (
          a,
          r,
          e ∙ rw (room, name_var) refl,
          free,
          write_new-Sound s a r (new_var str sc) lt free tt sound,
          mark-used s.ipc variable a,
        )
      ]
    where
      r : Region
      r = (ipc_stralloc s.string_memory s.strings str).1

  pub alloc-Outcome : (s : Shared D) (str : Str) (sc : Scope) → Sound s → Outcome s str sc
  unfolding var_alloc_cmn
  alloc-Outcome s str sc sound = elim (malloc_cases s.ipc variable (sound.in_map variable)) [
    | inl refused ↦ inl (s, rw (refused, var_alloc_cmn) refl, sound)
    | inr (a, e, lt, free) ↦ named s str sc a lt free sound (
        rw (e, var_alloc_cmn)
          (ap (λ (m : Option ℕ × Shm). name_var str sc a (record s { ipc = m.1 })) e))
  ]

  -- Allocating a variable keeps a state well-formed.
  pub var_alloc_cmn-Sound :
      (s : Shared D) (str : Str) (sc : Scope)
      → Sound s
      → IsNew s sc str
      → Sound (var_alloc_cmn str sc s).1
  var_alloc_cmn-Sound s str sc sound new = elim (alloc-Outcome s str sc sound) [
    | inl (s', e, sound') ↦ rw e sound'
    | inr (a, r, e, free, sound', used) ↦ rw e (
        enlist-Sound (placed s sc a str r) sc a used (placed-IsNew s sc a str r free sound new)
          sound')
  ]
