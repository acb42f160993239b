-- ===== src/Random.antt =====
-- filebench/fb_random.c: filebench_randomno64 and filebench_randomno32, with the random number that
-- they read as an argument.
pub mod Range
use filebench_pre_fsl.Base.{
  ℕ, ◌+◌, ◌-◌, ◌*◌, ◌/◌, ◌%◌, ◌^◌, Bool, true, false, Option, none, some, ltb, leb, ◌==◌,
  if◌then◌else◌,
}

-- FILEBENCH_RANDMAX64, UINT64_MAX.
abbrev pub randmax64 : ℕ
randmax64 = 18446744073709551615

-- `random` is what the variable or urandom gives; `none` is the return value -1.
unfoldable pub filebench_randomno64 : (random max round : ℕ) → Option ℕ
filebench_randomno64 random max round =
    if leb max round
    then (if max == round then some 0 else none)
    else (let max' = max - round in
        let scaled = random / (randmax64 / max') in
        let rounded = if round == 0 then scaled else (scaled / round) * round in
        some (if ltb max' rounded then max' else rounded))

-- FILEBENCH_RANDMAX32, UINT32_MAX.
abbrev pub randmax32 : ℕ
randmax32 = 4294967295

unfoldable pub filebench_randomno32 : (random max round : ℕ) → Option ℕ
filebench_randomno32 random max round =
    if leb max round
    then (if max == round then some 0 else none)
    else (let max' = max - round in
        let scaled = random / (randmax32 / max') in
        let rounded = if round == 0 then scaled else (scaled / round) * round in
        some (if ltb max' rounded then max' else rounded))
