-- ===== src/Tests/Vars.antt =====
-- Runs of the model of filebench/vars.c, with natural numbers for the doubles.
use filebench_pre_fsl.Base.{
  ℕ, zero, suc, ◌+◌, ◌-◌, ◌*◌, ◌/◌, ◌<◌, ◌≡◌, refl, true, false, none, some, List, [], ◌∷◌, inl,
  inr, arith,
}
use filebench_pre_fsl.Ipc.{
  ObjType, procflow, threadflow, flowop, avd, variable, fileset, filesetentry, randdist,
  filebench_sizes, scan, ipc_malloc, mark, set_bit,
}
use filebench_pre_fsl.Ipc.Strings.{ipc_stralloc}
use filebench_pre_fsl.Vars.RoundTrip.{var_to_integer-var_assign_integer}
use filebench_pre_fsl.Vars.Located.{OthersKept}
use filebench_pre_fsl.Vars.Binop.{
  Expr, const, apply, denote, height, Means, is_int, with_int, with_var, var_get_int_denotes,
}
use filebench_pre_fsl.Vars.Binop.Ends.{Ranked, var_get_int-Ends}
use filebench_pre_fsl.Vars.{
  Str, strcmp_eq, skip_dollar, int_set, indvar_set, integer, varptr2, var_find, var_find_alloc,
  find_or_alloc, var_find_list_only, var_alloc, var_alloc_cmn, name_var, enlist, set_var, set_int,
  set_binop_indvar, has_binop, var_sum_vc, var_mul_vc, OpType, Var, zeroed, Shared,
}
use filebench_pre_fsl.Vars.Eval.{
  Doubles, RndGet, got, of_option, int_op, second_int, var_binary_integer_op, int_of, var_get_int,
}
use filebench_pre_fsl.Vars.Assign.{
  assign_found, binop_int_var, var_assign_integer, var_assign_op_var_int,
}
use filebench_pre_fsl.Vars.Inv.{Sound}
use filebench_pre_fsl.Vars.Dynamic.{Outside}
use filebench_pre_fsl.Vars.Avd.{var_to_integer}
use filebench_pre_fsl.Vars.Script.{
  Command, assign_integer, op_var_int, lvar_var, define_randvar, run_script, run_script-Sound, Ends,
}
use filebench_pre_fsl.Vars.Binop.Ends as Reading

abbrev F : Doubles ℕ
F = record {
  of_int = λ n. n;
  to_int = λ n. n;
  add = λ a b. a + b;
  sub = λ a b. a - b;
  mul = λ a b. a * b;
  div = λ a b. a / (suc b);
}

-- The source counts.
abbrev counter : RndGet ℕ ℕ
counter r n = (n, n + 1)

abbrev O : Outside
O = record {
  stats_findvar = λ _. none;
  eventgen_hz = 0;
  gethostname = [];
  strftime = [];
  fscriptname = [];
  basename = λ x. x;
  getenv = λ _. none;
}

abbrev start : Shared ℕ
start = record {
  ipc = record { memsize = 16; bitmap = λ _ _. 0; last = λ _. 0 };
  strings = record { next = 0; bytes = λ _. 0 };
  string_memory = 64;
  vars = λ _. zeroed;
  shm_var_list = [];
  shm_var_dyn_list = [];
  shm_var_loc_list = [];
}

in_map_start : (t : ObjType) → 0 < filebench_sizes 16 t
unfolding filebench_sizes
in_map_start procflow = omega arith
in_map_start threadflow = omega arith
in_map_start flowop = omega arith
in_map_start avd = omega arith
in_map_start variable = omega arith
in_map_start fileset = omega arith
in_map_start filesetentry = omega arith
in_map_start randdist = omega arith

start-Sound : Sound start
start-Sound = record {
  in_map = in_map_start;
  used_vars = tt;
  used_dyn = tt;
  used_loc = tt;
  distinct = tt;
  typed = λ _. tt;
}

-- `$a` and `$b`
abbrev name_a : Str
name_a = 36 ∷ 97 ∷ []

abbrev name_b : Str
name_b = 36 ∷ 98 ∷ []

abbrev plus_int : OpType
plus_int = record { binop_int = true; binop_dbl = false; op = var_sum_vc }

abbrev script : List (Command ℕ)
script =
    assign_integer (some name_a) 5
    ∷ op_var_int (some name_b) plus_int name_a 2
    ∷ lvar_var name_b name_a
    ∷ define_randvar (36 ∷ 99 ∷ [])
    ∷ []

run_script-Sound_example : Ends F (run_script F script start)
run_script-Sound_example = run_script-Sound F script start start-Sound

-- The state in which $a is 5.
abbrev five : Shared ℕ
five = (var_assign_integer (some name_a) 5 start).1

five_assigned : var_assign_integer (some name_a) 5 start ≡ (true, five)
unfolding var_assign_integer var_find_alloc find_or_alloc var_find var_find_list_only var_alloc
    var_alloc_cmn ipc_malloc scan filebench_sizes name_var ipc_stralloc assign_found skip_dollar
    enlist set_var set_int mark set_bit
five_assigned = refl

var_to_integer-var_assign_integer_example :
    (var_to_integer F counter O 1 name_a five 0 ≡ got (5, five) 0)
    × OthersKept start five (skip_dollar name_a)
var_to_integer-var_assign_integer_example =
    var_to_integer-var_assign_integer F counter O start five name_a 5 0 0 start-Sound five_assigned

-- `$a = $a + 1`
abbrev looped : Shared ℕ
looped = (var_assign_op_var_int (some name_a) plus_int name_a 1 five).1

five_found : var_find five (skip_dollar name_a) ≡ some 1
unfolding var_assign_integer var_find_alloc find_or_alloc var_find var_find_list_only var_alloc
    var_alloc_cmn ipc_malloc scan filebench_sizes name_var ipc_stralloc assign_found skip_dollar
    enlist set_var set_int mark set_bit strcmp_eq
five_found = refl

loop_stored : var_assign_op_var_int (some name_a) plus_int name_a 1 five ≡ (true, looped)
unfolding var_assign_integer var_find_alloc find_or_alloc var_find var_find_list_only var_alloc
    var_alloc_cmn ipc_malloc scan filebench_sizes name_var ipc_stralloc assign_found skip_dollar
    enlist set_var set_int mark set_bit strcmp_eq var_assign_op_var_int binop_int_var
    set_binop_indvar
loop_stored = refl

five_plain : (five.vars 1).ind.binop_dbl ≡ false
unfolding var_assign_integer var_find_alloc find_or_alloc var_find var_find_list_only var_alloc
    var_alloc_cmn ipc_malloc scan filebench_sizes name_var ipc_stralloc assign_found skip_dollar
    enlist set_var set_int mark set_bit strcmp_eq
five_plain = refl

-- 5; that and 2; the product of both.
abbrev chain : ℕ → Var ℕ
chain zero = record zeroed { set_to = int_set; val = integer 5 }
chain (suc zero) = record zeroed {
  set_to = indvar_set;
  ind = plus_int;
  val = integer 2;
  varptr1 = some 0;
}
chain (suc (suc zero)) = record zeroed {
  set_to = indvar_set;
  ind = record { binop_int = true; binop_dbl = true; op = var_mul_vc };
  val = varptr2 (some 0);
  varptr1 = some 1;
}
chain (suc (suc (suc n))) = zeroed

abbrev product : Expr
product = apply var_mul_vc (apply var_sum_vc (const 5) (const 2)) (const 5)

chain-Means : Means chain 2 product
chain-Means =
    with_var refl refl refl refl refl (with_int refl refl refl refl refl (is_int refl refl))
      (is_int refl refl)

var_get_int_denotes_example : var_get_int F counter 7 chain 2 0 ≡ of_option (denote product) 0
unfolding height
var_get_int_denotes_example =
    var_get_int_denotes F counter chain 2 product 7 0 chain-Means (omega arith)

-- The run itself.
chain_value : var_get_int F counter 7 chain 2 0 ≡ got 35 0
unfolding var_get_int int_of var_binary_integer_op second_int has_binop int_op
chain_value = refl

chain-Ranked : Ranked chain (λ a. a)
unfolding has_binop
chain-Ranked zero p b o = absurd (cc)
chain-Ranked (suc zero) p b (inl e) = let e' : 0 ≡ p = cc in omega arith
chain-Ranked (suc zero) p b (inr e) = absurd (cc)
chain-Ranked (suc (suc zero)) p b (inl e) = let e' : 1 ≡ p = cc in omega arith
chain-Ranked (suc (suc zero)) p b (inr e) =
    let e' : some 0 ≡ some p = cc in let e'' : 0 ≡ p = cc in omega arith
chain-Ranked (suc (suc (suc n))) p b o = absurd (cc)

var_get_int-Ends_example : Reading.Ends (var_get_int F counter 3 chain 2 0)
var_get_int-Ends_example =
    var_get_int-Ends F counter chain (λ a. a) 2 3 0 chain-Ranked (omega arith)
