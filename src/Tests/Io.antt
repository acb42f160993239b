-- ===== src/Tests/Io.antt =====
-- Runs of the model of the flowops that read and write.
use filebench_pre_fsl.Base.{◌≡◌, refl, true, some, [], ◌∷◌, arith}
use filebench_pre_fsl.FileOps.Io.{
  Buffers, Answers, flowoplib_read, flowoplib_write, flowoplib_appendfile, flowoplib_appendfilerand,
  flowoplib_readwholefile, whole_writes, writewholefile_sizes,
}
use filebench_pre_fsl.FileOps.Io.Bounds.{SizeFits, Safe, io_flowops-Safe}

-- A private buffer that was allocated larger than it is used.
abbrev own : Buffers
own = record { tf_constmemsize = 0; fo_buf = some 16; fo_buf_size = 8 }

abbrev answers : Answers
answers = record { buf_random = 5; offset_random = 7; room = true; answer = some 4 }

own-SizeFits : SizeFits own
own-SizeFits length e = let same : 16 ≡ length = cc in omega arith

io_flowops-Safe_example :
    Safe 100 (flowoplib_read answers true 100 4 own)
    × Safe 100 (flowoplib_write answers true 100 4 own)
    × Safe 100 (flowoplib_appendfile answers 4 own)
    × Safe 100 (flowoplib_appendfilerand answers 4 own)
    × Safe 100 (flowoplib_readwholefile answers (some 4 ∷ some 2 ∷ []) 100 4 own)
io_flowops-Safe_example = io_flowops-Safe answers true (some 4 ∷ some 2 ∷ []) 100 4 own own-SizeFits

overrun : writewholefile_sizes 9 10 4 ≡ some (4 ∷ 4 ∷ 4 ∷ [])
unfolding writewholefile_sizes whole_writes
overrun = refl
