-- ===== src/FileOps/Io/Whole.antt =====
-- flowoplib_writewholefile of filebench/flowop_library.c: the sizes of its writes.
use filebench_pre_fsl.Base.{ℕ, zero, suc, ◌+◌, List, [], ◌∷◌}

-- The same size so many times.
abbrev pub times : ℕ → ℕ → List ℕ
times zero n = []
times (suc k) n = n ∷ times k n

-- m blocks and a rest.
abbrev blocks : (m iosize rest : ℕ) → ℕ
blocks zero iosize rest = rest
blocks (suc m) iosize rest = iosize + blocks m iosize rest

abbrev pub sum : List ℕ → ℕ
sum [] = 0
sum (n ∷ list) = n + sum list
