-- ===== src/Vars/Dynamic.antt =====
-- filebench/vars.c: the variables that are filled when they are looked up (var_find_dynamic,
-- var_find_internal, var_find_environment), with host_var, date_var and script_var of
-- filebench/misc.c and eventgen_ratevar of filebench/eventgen.c. fb_stralloc is taken to find room.
use filebench_pre_fsl.Base.{
  ℕ, Bool, true, false, ◌&&◌, ◌||◌, Option, none, some, [], ◌∷◌, ◌==◌, if◌then◌else◌,
}
use filebench_pre_fsl.Vars.{
  Str, strcmp_eq, Var, set_int, set_str, Shared, set_var, var_alloc_dynamic, var_find_list_only,
}

-- What the routines read from elsewhere: stats_findvar of stats.c by the name behind `stats.`,
-- shm_eventgen_hz, the C library and the script's path.
pub record Outside : Type 0 where
  pub stats_findvar : Str → Option ℕ
  pub eventgen_hz : ℕ
  pub gethostname : Str
  pub strftime : Str
  pub fscriptname : Str
  pub basename : Str → Str
  pub getenv : Str → Option Str

-- The characters of `stats.`, `rate`, `date`, `scriptname` and `hostname`.
abbrev pub stats_var : Str
stats_var = 115 ∷ 116 ∷ 97 ∷ 116 ∷ 115 ∷ 46 ∷ []

abbrev pub eventgen_var : Str
eventgen_var = 114 ∷ 97 ∷ 116 ∷ 101 ∷ []

abbrev pub date_name : Str
date_name = 100 ∷ 97 ∷ 116 ∷ 101 ∷ []

abbrev pub script_name : Str
script_name = 115 ∷ 99 ∷ 114 ∷ 105 ∷ 112 ∷ 116 ∷ 110 ∷ 97 ∷ 109 ∷ 101 ∷ []

abbrev pub host_name : Str
host_name = 104 ∷ 111 ∷ 115 ∷ 116 ∷ 110 ∷ 97 ∷ 109 ∷ 101 ∷ []

-- strncmp(name, prefix, strlen(prefix)) == 0, and then what follows the prefix.
unfoldable pub after_prefix : Str → Str → Option Str
after_prefix [] str = some str
after_prefix (p ∷ ps) [] = none
after_prefix (p ∷ ps) (c ∷ cs) = let rest = after_prefix ps cs in if p == c then rest else none

-- The string without its last character, where that character is `c`.
unfoldable pub strip_last : ℕ → Str → Option Str
strip_last c [] = none
strip_last c (x ∷ []) = if x == c then some [] else none
strip_last c (x ∷ y ∷ ys) = elim (strip_last c (y ∷ ys)) [ none ↦ none | some zs ↦ some (x ∷ zs) ]

-- The routine sets the variable, and returns 0 where it succeeds too.
unfoldable pub host_var : {D : Type 0} → Outside → Var D → Bool × Var D
unfolding set_str
host_var O v = (false, set_str v O.gethostname)

unfoldable pub date_var : {D : Type 0} → Outside → Var D → Bool × Var D
unfolding set_str
date_var O v = (true, set_str v O.strftime)

unfoldable pub has_char : ℕ → Str → Bool
has_char c [] = false
has_char c (x ∷ xs) = (x == c) || has_char c xs

-- Cuts at the last `.`, if there is one.
unfoldable pub cut_suffix : Str → Str
unfolding has_char
cut_suffix [] = []
cut_suffix (x ∷ xs) = let rest = cut_suffix xs in if (x == 46) && not_in xs then [] else x ∷ rest
  where
    not_in : Str → Bool
    not_in ys = if has_char 46 ys then false else true

-- The loop does not look at the first character.
unfoldable pub trim_script : Str → Str
unfolding cut_suffix
trim_script [] = []
trim_script (x ∷ xs) = x ∷ cut_suffix xs

unfoldable pub script_var : {D : Type 0} → Outside → Var D → Bool × Var D
unfolding set_str trim_script
script_var O v = (true, set_str v (O.basename (trim_script O.fscriptname)))

unfoldable pub eventgen_ratevar : {D : Type 0} → Outside → Var D → Bool × Var D
unfolding set_int
eventgen_ratevar O v = (true, set_int v O.eventgen_hz)

abbrev pub stats_fill : {D : Type 0} → Option ℕ → Var D → Bool × Var D
stats_fill none v = (false, v)
stats_fill (some n) v = (true, set_int v n)

-- The tests by name, one behind the other; the names exclude each other.
unfoldable pub fill_internal : {D : Type 0} → Outside → Str → Var D → Bool × Var D
unfolding after_prefix strcmp_eq eventgen_ratevar date_var script_var host_var set_int
fill_internal O str v = elim (after_prefix stats_var str) [
  | some rest ↦ stats_fill (O.stats_findvar rest) v
  | none ↦
      if strcmp_eq str eventgen_var
      then eventgen_ratevar O v
      else if strcmp_eq str date_name
      then date_var O v
      else if strcmp_eq str script_name
      then script_var O v
      else if strcmp_eq str host_name
      then host_var O v
      else (false, v)
]

-- The name is `{…}`; whether the variable was found, and the variable after it.
unfoldable pub var_find_internal : {D : Type 0} → Outside → Str → Var D → Bool × Var D
unfolding fill_internal strip_last
var_find_internal O str v = elim (strip_last 125 str) [
  | none ↦ (false, v)
  | some inner ↦ fill_internal O inner v
]

-- The name is `(…)`.
unfoldable pub var_find_environment : {D : Type 0} → Outside → Str → Var D → Bool × Var D
unfolding strip_last set_str
var_find_environment O str v = elim (strip_last 41 str) [
  | none ↦ (false, v)
  | some inner ↦ elim (O.getenv inner) [ none ↦ (false, v) | some text ↦ (true, set_str v text) ]
]

-- What is behind the first character, looked up by that character.
unfoldable pub fill_dynamic : {D : Type 0} → Outside → Str → Var D → Bool × Var D
unfolding var_find_internal var_find_environment
fill_dynamic O [] v = (false, v)
fill_dynamic O (c ∷ cs) v =
    if c == 123
    then var_find_internal O cs v
    else if c == 40
    then var_find_environment O cs v
    else (false, v)

-- A variable that could not be allocated is a NULL pointer, which the lookups follow: `none`.
unfoldable pub found_dynamic :
    {D : Type 0} → Outside → Str → Option ℕ × Shared D → Option (Option ℕ × Shared D)
unfolding fill_dynamic set_var
found_dynamic O str (some a, s) =
    let (found, v) = fill_dynamic O str (s.vars a) in
    some (if found then some a else none, set_var s a v)
found_dynamic O [] (none, s) = some (none, s)
found_dynamic O (c ∷ cs) (none, s) = if (c == 123) || (c == 40) then none else some (none, s)

unfoldable pub var_find_dynamic :
    {D : Type 0} → Outside → Str → Shared D → Option (Option ℕ × Shared D)
unfolding found_dynamic var_find_list_only var_alloc_dynamic
var_find_dynamic O str s = elim (var_find_list_only s.vars str s.shm_var_dyn_list) [
  | some a ↦ found_dynamic O str (some a, s)
  | none ↦ found_dynamic O str (var_alloc_dynamic str s)
]
