-- ===== src/Vars.antt =====
-- filebench/vars.c and vars.h: the variables of a workload script, their lists and how they are
-- found and allocated. A name or a string is the list of its characters; a variable is named by its
-- slot of shm_var, and the type of a double is an argument.
pub mod Find
pub mod Inv
pub mod Script
pub mod Located
pub mod RoundTrip
pub mod Binop
pub mod Eval
pub mod Assign
pub mod Local
pub mod Dynamic
pub mod Avd
use filebench_pre_fsl.Base.{
  ℕ, Bool, true, false, ◌&&◌, ◌||◌, not, List, [], ◌∷◌, ◌++◌, Option, none, some, ◌==◌,
  if◌then◌else◌, update,
}
use filebench_pre_fsl.Ipc.{Shm, variable, ipc_malloc}
use filebench_pre_fsl.Ipc.Strings.{Region, ipc_stralloc}

abbrev pub Str : Type 0
Str = List ℕ

-- strcmp(a, b) == 0
unfoldable pub strcmp_eq : Str → Str → Bool
strcmp_eq [] [] = true
strcmp_eq [] (y ∷ ys) = false
strcmp_eq (x ∷ xs) [] = false
strcmp_eq (x ∷ xs) (y ∷ ys) = (x == y) && strcmp_eq xs ys

-- `name += 1`: steps over the leading `$`.
unfoldable pub skip_dollar : Str → Str
skip_dollar [] = []
skip_dollar (c ∷ cs) = cs

-- The bits of VAR_TYPE_MASK.
pub data Scope : Type 0 where
  global dynamic random local : Scope

-- The bits of VAR_TYPE_SET_MASK.
pub data SetTo : Type 0 where
  unset bool_set int_set str_set dbl_set rand_set indvar_set : SetTo

-- The bits of VAR_INDVAR_MASK: VAR_IND_ASSIGN and the six operations.
pub data Op : Type 0 where
  assign var_sum_vc var_dif_vc c_dif_var var_mul_vc var_div_vc c_div_var : Op

-- The two bits of VAR_INDBINOP_MASK and the operation, as the parser passes them: both bits are set
-- for VAR_IND_BINOP_VAR.
pub record OpType : Type 0 where
  pub binop_int : Bool
  pub binop_dbl : Bool
  pub op : Op

-- var_val, a union: which member was stored last. `untouched` has all bytes zero.
pub data Val (D : Type 0) : Type 0 where
  untouched : Val D
  boolean : Bool → Val D
  integer : ℕ → Val D
  dbl_flt : D → Val D
  string : Str → Val D
  randptr : Option ℕ → Val D
  varptr2 : Option ℕ → Val D

-- var_t, with var_type taken apart. var_next is the place in a list of `Vars`.
pub record Var (D : Type 0) : Type 0 where
  pub name : Str
  pub scope : Scope
  pub set_to : SetTo
  pub ind : OpType
  pub val : Val D
  pub varptr1 : Option ℕ

abbrev pub no_op : OpType
no_op = record { binop_int = false; binop_dbl = false; op = assign }

abbrev pub zeroed : {D : Type 0} → Var D
zeroed = record {
  name = [];
  scope = global;
  set_to = unset;
  ind = no_op;
  val = untouched;
  varptr1 = none;
}

-- VAR_SET_BOOL and the macros below it; all but the last two leave the bits of `ind`.
unfoldable pub set_bool : {D : Type 0} → Var D → Bool → Var D
set_bool v b = record v { val = boolean b; set_to = bool_set }

unfoldable pub set_int : {D : Type 0} → Var D → ℕ → Var D
set_int v n = record v { val = integer n; set_to = int_set }

unfoldable pub set_dbl : {D : Type 0} → Var D → D → Var D
set_dbl v d = record v { val = dbl_flt d; set_to = dbl_set }

unfoldable pub set_str : {D : Type 0} → Var D → Str → Var D
set_str v str = record v { val = string str; set_to = str_set }

unfoldable pub set_rand : {D : Type 0} → Var D → Option ℕ → Var D
set_rand v p = record v { val = randptr p; set_to = rand_set }

-- The operation is cleared, the two bits of VAR_INDBINOP_MASK are not.
unfoldable pub set_indvar : {D : Type 0} → Var D → Option ℕ → Var D
set_indvar v p = record v { varptr1 = p; set_to = indvar_set; ind = record (v.ind) { op = assign } }

-- `| st`: the two bits are added to those that are set already.
unfoldable pub set_binop_indvar : {D : Type 0} → Var D → Option ℕ → OpType → Var D
set_binop_indvar v p st = record v {
  varptr1 = p;
  set_to = indvar_set;
  ind = record {
    binop_int = v.ind.binop_int || st.binop_int;
    binop_dbl = v.ind.binop_dbl || st.binop_dbl;
    op = st.op;
  };
}

-- VAR_HAS_BINOP and VAR_HAS_INDVAR.
abbrev pub is_indvar : SetTo → Bool
is_indvar indvar_set = true
is_indvar _ = false

unfoldable pub has_binop : {D : Type 0} → Var D → Bool
has_binop v = is_indvar v.set_to && (v.ind.binop_int || v.ind.binop_dbl)

unfoldable pub has_indvar : {D : Type 0} → Var D → Bool
has_indvar v = is_indvar v.set_to && not (v.ind.binop_int || v.ind.binop_dbl)

-- The part of filebench_shm that the routines for variables use.
pub record Shared (D : Type 0) : Type 0 where
  pub ipc : Shm
  pub strings : Region
  -- FILEBENCH_STRINGMEMORY
  pub string_memory : ℕ
  -- shm_var
  pub vars : ℕ → Var D
  pub shm_var_list : List ℕ
  pub shm_var_dyn_list : List ℕ
  pub shm_var_loc_list : List ℕ

unfoldable pub set_var : {D : Type 0} → Shared D → ℕ → Var D → Shared D
set_var s a v = record s { vars = update s.vars a v }

-- The switch at the end of var_alloc_cmn: local variables at the head, others at the end.
unfoldable pub enlist : {D : Type 0} → Scope → ℕ → Shared D → Shared D
enlist dynamic a s = record s { shm_var_dyn_list = s.shm_var_dyn_list ++ (a ∷ []) }
enlist local a s = record s { shm_var_loc_list = a ∷ s.shm_var_loc_list }
enlist _ a s = record s { shm_var_list = s.shm_var_list ++ (a ∷ []) }

-- Where the name finds no room, the slot stays allocated and in no list.
unfoldable pub name_var : {D : Type 0} → Str → Scope → ℕ → Shared D → Option ℕ × Shared D
unfolding enlist set_var
name_var str sc a s =
    let (p, r) = ipc_stralloc s.string_memory s.strings str in
    let t = record s { strings = r } in
    elim p [
      | none ↦ (none, set_var t a (record zeroed { scope = sc }))
      | some _ ↦ (some a, enlist sc a (set_var t a (record zeroed { name = str; scope = sc })))
    ]

unfoldable pub var_alloc_cmn : {D : Type 0} → Str → Scope → Shared D → Option ℕ × Shared D
unfolding name_var
var_alloc_cmn str sc s =
    let (slot, ipc') = ipc_malloc s.ipc variable in
    elim slot [ none ↦ (none, s) | some a ↦ name_var str sc a (record s { ipc = ipc' }) ]

unfoldable pub var_alloc : {D : Type 0} → Str → Shared D → Option ℕ × Shared D
var_alloc str s = var_alloc_cmn str global s

unfoldable pub var_alloc_dynamic : {D : Type 0} → Str → Shared D → Option ℕ × Shared D
var_alloc_dynamic str s = var_alloc_cmn str dynamic s

abbrev pub without_dollar : Str → Str
without_dollar [] = []
without_dollar (c ∷ cs) = if c == 36 then cs else c ∷ cs

unfoldable pub var_lvar_alloc_local : {D : Type 0} → Str → Shared D → Option ℕ × Shared D
var_lvar_alloc_local str s = var_alloc_cmn (without_dollar str) local s

unfoldable pub var_find_list_only : {D : Type 0} → (ℕ → Var D) → Str → List ℕ → Option ℕ
var_find_list_only vars str [] = none
var_find_list_only vars str (a ∷ list) =
    let rest = var_find_list_only vars str list in
    if strcmp_eq ((vars a).name) str then some a else rest

abbrev pub or_else {ℓ} : {A : Type ℓ} → Option A → Option A → Option A
or_else none o = o
or_else (some a) o = some a

-- First the local list, then the global one.
unfoldable pub var_find : {D : Type 0} → Shared D → Str → Option ℕ
unfolding var_find_list_only
var_find s str =
    or_else (var_find_list_only s.vars str s.shm_var_loc_list)
      (var_find_list_only s.vars str s.shm_var_list)

unfoldable pub var_find_list : {D : Type 0} → Shared D → Str → List ℕ → Option ℕ
unfolding var_find var_find_list_only
var_find_list s str list = or_else (var_find_list_only s.vars str list) (var_find s str)

-- `if ((var = var_find(name)) == NULL) var = var_alloc(name);`
unfoldable pub find_or_alloc : {D : Type 0} → Str → Shared D → Option ℕ × Shared D
unfolding var_find var_alloc
find_or_alloc str s = elim (var_find s str) [ none ↦ var_alloc str s | some a ↦ (some a, s) ]

-- The name comes with its `$`; `none` is a NULL name.
unfoldable pub var_find_alloc : {D : Type 0} → Option Str → Shared D → Option ℕ × Shared D
unfolding find_or_alloc skip_dollar
var_find_alloc none s = (none, s)
var_find_alloc (some str) s = find_or_alloc (skip_dollar str) s
