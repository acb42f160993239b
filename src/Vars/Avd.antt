-- ===== src/Vars/Avd.antt =====
-- filebench/vars.c and vars.h: attribute value descriptors (avd_t) and the lookups by name that
-- read a value or make a descriptor. A descriptor is not written again once it has been filled, so
-- an avd_t is its contents, `none` for NULL.
use filebench_pre_fsl.Base.{
  ℕ, Bool, true, false, not, Option, none, some, List, ◌==◌, if◌then◌else◌,
}
use filebench_pre_fsl.Ipc.{avd, ipc_malloc}
use filebench_pre_fsl.Ipc.Strings.{ipc_stralloc}
use filebench_pre_fsl.Vars.{
  Str, skip_dollar, unset, bool_set, int_set, str_set, dbl_set, rand_set, indvar_set, Op, assign,
  Var, Shared, var_alloc, var_find, var_find_list,
}
use filebench_pre_fsl.Vars.Eval.{
  Doubles, RndGet, Got, got, fault, bind_got, of_option, read_bool, read_int, read_dbl,
  read_randptr, var_get_int, var_get_dbl, var_get_bool,
}
use filebench_pre_fsl.Vars.Dynamic.{Outside, var_find_dynamic}

-- The pointers of the AVD_VARVAL types lead to the union of a variable, given by its slot.
pub data Avd (D : Type 0) : Type 0 where
  invalid : Avd D
  val_bool : Bool → Avd D
  varval_bool : Option ℕ → Avd D
  val_int : ℕ → Avd D
  varval_int : Option ℕ → Avd D
  val_str : Option Str → Avd D
  varval_str : Option ℕ → Avd D
  val_dbl : D → Avd D
  varval_dbl : Option ℕ → Avd D
  ind_var : Option ℕ → Avd D
  ind_randvar : Option ℕ → Avd D

-- avd_alloc_cmn, and the descriptor filled.
unfoldable pub avd_alloc : {D : Type 0} → Avd D → Shared D → Option (Avd D) × Shared D
avd_alloc contents s =
    let (slot, ipc') = ipc_malloc s.ipc avd in
    elim slot [ none ↦ (none, s) | some _ ↦ (some contents, record s { ipc = ipc' }) ]

unfoldable pub avd_bool_alloc : {D : Type 0} → Bool → Shared D → Option (Avd D) × Shared D
unfolding avd_alloc
avd_bool_alloc b s = avd_alloc (val_bool b) s

unfoldable pub avd_int_alloc : {D : Type 0} → ℕ → Shared D → Option (Avd D) × Shared D
unfolding avd_alloc
avd_int_alloc n s = avd_alloc (val_int n) s

abbrev is_assign : Op → Bool
is_assign assign = true
is_assign _ = false

-- What the descriptor of a variable holds; `none`: a randptr that is not in the union.
unfoldable pub avd_contents : {D : Type 0} → ℕ → Var D → Option (Avd D)
avd_contents a v = elim (v.set_to) [
  | bool_set ↦ some (varval_bool (some a))
  | int_set ↦ some (varval_int (some a))
  | str_set ↦ some (varval_str (some a))
  | dbl_set ↦ some (varval_dbl (some a))
  | rand_set ↦ elim (read_randptr v.val) [ none ↦ none | some r ↦ some (ind_randvar r) ]
  | indvar_set ↦ some (ind_var (if is_assign (v.ind.op) then v.varptr1 else some a))
  | unset ↦ some (ind_var (some a))
]

unfoldable pub avd_alloc_var_ptr :
    {D : Type 0} → Option ℕ → Shared D → Option (Option (Avd D) × Shared D)
unfolding avd_alloc avd_contents
avd_alloc_var_ptr none s = some (none, s)
avd_alloc_var_ptr (some a) s = elim (avd_contents a (s.vars a)) [
  | none ↦ none
  | some contents ↦ some (avd_alloc contents s)
]

-- The string is copied; where the copy finds no room, the descriptor holds NULL.
unfoldable pub avd_str_alloc : {D : Type 0} → Option Str → Shared D → Option (Avd D) × Shared D
avd_str_alloc none s = (none, s)
avd_str_alloc (some text) s =
    let (slot, ipc') = ipc_malloc s.ipc avd in
    elim slot [
      | none ↦ (none, s)
      | some _ ↦
          let (p, r) = ipc_stralloc s.string_memory s.strings text in
          (
            some (val_str (elim p [ none ↦ none | some _ ↦ some text ])),
            record s { ipc = ipc'; strings = r },
          )
    ]

module _ {D S : Type 0} (F : Doubles D) (rnd_get : RndGet D S) where
  -- The members of a variable's union, read through a pointer into it.
  abbrev pub deref : {V : Type 0} → (ℕ → Option V) → V → Option ℕ → S → Got V S
  deref read nought none s = got nought s
  deref read nought (some a) s = of_option (read a) s

  -- (fbint_t)rndp->rnd_get(rndp)
  abbrev pub sample : {V : Type 0} → (D → V) → V → Option ℕ → S → Got V S
  sample convert nought none s = got nought s
  sample convert nought (some r) s = let (d, t) = rnd_get r s in got (convert d) t

  unfoldable pub avd_get_int : ℕ → (ℕ → Var D) → Option (Avd D) → S → Got ℕ S
  unfolding var_get_int
  avd_get_int fuel vars (some (val_int n)) s = got n s
  avd_get_int fuel vars (some (varval_int p)) s = deref (λ a. read_int ((vars a).val)) 0 p s
  avd_get_int fuel vars (some (ind_var none)) s = got 0 s
  avd_get_int fuel vars (some (ind_var (some a))) s = var_get_int F rnd_get fuel vars a s
  avd_get_int fuel vars (some (ind_randvar p)) s = sample F.to_int 0 p s
  avd_get_int fuel vars _ s = got 0 s

  unfoldable pub avd_get_dbl : ℕ → (ℕ → Var D) → Option (Avd D) → S → Got D S
  unfolding var_get_dbl
  avd_get_dbl fuel vars (some (val_int n)) s = got (F.of_int n) s
  avd_get_dbl fuel vars (some (val_dbl d)) s = got d s
  avd_get_dbl fuel vars (some (varval_int p)) s =
      bind_got (deref (λ a. read_int ((vars a).val)) 0 p s) (λ n t. got (F.of_int n) t)
  avd_get_dbl fuel vars (some (varval_dbl p)) s =
      deref (λ a. read_dbl F ((vars a).val)) (F.of_int 0) p s
  avd_get_dbl fuel vars (some (ind_var none)) s = got (F.of_int 0) s
  avd_get_dbl fuel vars (some (ind_var (some a))) s = var_get_dbl F rnd_get fuel vars a s
  avd_get_dbl fuel vars (some (ind_randvar p)) s = sample (λ d. d) (F.of_int 0) p s
  avd_get_dbl fuel vars _ s = got (F.of_int 0) s

  unfoldable pub avd_get_bool : (ℕ → Var D) → Option (Avd D) → S → Got Bool S
  unfolding var_get_bool
  avd_get_bool vars (some (val_bool b)) s = got b s
  avd_get_bool vars (some (varval_bool p)) s = deref (λ a. read_bool ((vars a).val)) false p s
  avd_get_bool vars (some (val_int n)) s = got (not (n == 0)) s
  avd_get_bool vars (some (varval_int p)) s =
      bind_got (deref (λ a. read_int ((vars a).val)) 0 p s) (λ n t. got (not (n == 0)) t)
  avd_get_bool vars (some (ind_var none)) s = got false s
  avd_get_bool vars (some (ind_var (some a))) s = var_get_bool F rnd_get vars a s
  avd_get_bool vars _ s = got false s

-- `var_find(name)`, and where there is none `var_find_dynamic(name)`; `none`: a NULL pointer followed.
unfoldable pub find_any : {D : Type 0} → Outside → Str → Shared D → Option (Option ℕ × Shared D)
unfolding var_find var_find_dynamic
find_any O str s = elim (var_find s str) [
  | none ↦ var_find_dynamic O str s
  | some a ↦ some (some a, s)
]

-- The result of var_ref_attr: the descriptor, a shutdown, or a fault.
pub data Ref (D : Type 0) : Type 0 where
  ref : Option (Avd D) → Shared D → Ref D
  shut_down : Shared D → Ref D
  ref_fault : Ref D

abbrev ref_of : {D : Type 0} → Option (Option (Avd D) × Shared D) → Ref D
ref_of none = ref_fault
ref_of (some (p, s)) = ref p s

abbrev ref_or_shut : {D : Type 0} → Option ℕ × Shared D → Ref D
ref_or_shut (none, s) = shut_down s
ref_or_shut (some a, s) = ref_of (avd_alloc_var_ptr (some a) s)

unfoldable pub var_ref_attr : {D : Type 0} → Outside → Str → Shared D → Ref D
unfolding find_any var_alloc avd_alloc_var_ptr skip_dollar
var_ref_attr O str s = elim (find_any O (skip_dollar str) s) [
  | none ↦ ref_fault
  | some (some a, t) ↦ ref_or_shut (some a, t)
  | some (none, t) ↦ ref_or_shut (var_alloc (skip_dollar str) t)
]

-- The new value of `*avdp`; only a descriptor that leads to a variable is replaced.
unfoldable pub avd_update :
    {D : Type 0} → Avd D → List ℕ → Shared D → Option (Option (Avd D) × Shared D)
unfolding avd_alloc_var_ptr var_find_list
avd_update (ind_var (some a)) lvar_list s = elim (var_find_list s ((s.vars a).name) lvar_list) [
  | some b ↦ avd_alloc_var_ptr (some b) s
  | none ↦ avd_alloc_var_ptr (some a) s
]
avd_update other lvar_list s = some (some other, s)

module _ {D S : Type 0} (F : Doubles D) (rnd_get : RndGet D S) (O : Outside) where
  -- The value with the shared state after the lookup.
  abbrev with_state : {V : Type 0} → Shared D → Got V S → Got (V × Shared D) S
  with_state t g = bind_got g (λ v u. got (v, t) u)

  unfoldable pub var_to_boolean : Str → Shared D → S → Got (Bool × Shared D) S
  unfolding find_any var_get_bool skip_dollar
  var_to_boolean str s u = elim (find_any O (skip_dollar str) s) [
    | none ↦ fault
    | some (none, t) ↦ got (false, t) u
    | some (some a, t) ↦ with_state t (var_get_bool F rnd_get t.vars a u)
  ]

  unfoldable pub var_to_integer : ℕ → Str → Shared D → S → Got (ℕ × Shared D) S
  unfolding find_any var_get_int skip_dollar
  var_to_integer fuel str s u = elim (find_any O (skip_dollar str) s) [
    | none ↦ fault
    | some (none, t) ↦ got (0, t) u
    | some (some a, t) ↦ with_state t (var_get_int F rnd_get fuel t.vars a u)
  ]

  unfoldable pub var_to_double : ℕ → Str → Shared D → S → Got (D × Shared D) S
  unfolding find_any var_get_dbl skip_dollar
  var_to_double fuel str s u = elim (find_any O (skip_dollar str) s) [
    | none ↦ fault
    | some (none, t) ↦ got (F.of_int 0, t) u
    | some (some a, t) ↦ with_state t (var_get_dbl F rnd_get fuel t.vars a u)
  ]
