-- ===== src/FileOps/Io.antt =====
-- filebench/flowop_library.c: the flowops that read and write, with flowoplib_filesetup,
-- flowoplib_iobufsetup and flowoplib_iosetup. The calls of the file system are recorded, and their
-- results are arguments. A thread's descriptors and the flowop refer to one fileset, so that the
-- names compared in flowoplib_filesetup agree; raw devices are left out.
pub mod Bounds
pub mod Whole
use filebench_pre_fsl.Base.{
  ℕ, zero, suc, ◌+◌, ◌-◌, Bool, true, false, not, ◌&&◌, Option, none, some, List, [], ◌∷◌, ltb,
  ◌==◌, if◌then◌else◌, ◌%◌, ◌^◌, int_to_uint64,
}
use filebench_pre_fsl.Base.Int.{is_zero}
use filebench_pre_fsl.Fileset.Avl.{Avl}
use filebench_pre_fsl.FileOps.{
  Status, ok, error, World, Result, returns, OpenEnv, Flowop, flowoplib_openfile_common,
}
use filebench_pre_fsl.Descriptors.{FdOp, flowoplib_fdnum}
use filebench_pre_fsl.Random.{filebench_randomno64}

-- tf_constmemsize, the length of tf_mem; fo_buf as the length it was allocated with; fo_buf_size.
pub record Buffers : Type 0 where
  pub tf_constmemsize : ℕ
  pub fo_buf : Option ℕ
  pub fo_buf_size : ℕ

-- Where an I/O goes: an offset into tf_mem, fo_buf, or the one byte zerordbuf or zerowrtbuf.
pub data Iobuf : Type 0 where
  tf_mem : ℕ → Iobuf
  private_buf : Iobuf
  zero_buf : Iobuf

-- Freeing a private buffer that is too small.
unfoldable pub drop_small : ℕ → Buffers → Option ℕ
drop_small iosize b = elim (b.fo_buf) [
  | none ↦ none
  | some length ↦ if ltb b.fo_buf_size iosize then none else some length
]

-- `random` is the random number that is read, `room` whether malloc succeeds.
unfoldable pub flowoplib_iobufsetup :
    (random : ℕ) → (room : Bool) → (iosize : ℕ) → Buffers → Option Iobuf × Buffers
unfolding drop_small filebench_randomno64
flowoplib_iobufsetup random room iosize b =
    if iosize == 0
    then (none, b)
    else if not (b.tf_constmemsize == 0)
    then (elim (filebench_randomno64 random b.tf_constmemsize iosize) [
      | none ↦ (none, b)
      | some memoffset ↦ (some (tf_mem memoffset), b)
    ])
    else (elim (drop_small iosize b) [
      | some length ↦ (some private_buf, record b { fo_buf = some length; fo_buf_size = iosize })
      | none ↦
          if room
          then (some private_buf, record b { fo_buf = some iosize; fo_buf_size = iosize })
          else (none, record b { fo_buf = none })
    ])

-- What flowoplib_filesetup comes to: the descriptor's index, the working set size and the world, or
-- the result with which the flowop ends.
pub data Setup (T : Type 0) : Type 0 where
  ready : (fd wss : ℕ) → World T → Setup T
  ends : Result T → Setup T

-- `fse_size` and `fs_size` are the sizes of the entries and of the fileset.
module _ {T : Type 0} (fse_size : ℕ → ℕ) (fs_size constwss : ℕ) where
  unfoldable pub setup_size : ℕ → World T → Setup T
  setup_size fd w =
      ready fd
        (if constwss == 0
          then (elim (w.thread.tf_fse fd) [ some e ↦ fse_size e | none ↦ fs_size ])
          else constwss)
        w

  abbrev pub opened_size : ℕ → Result T → Setup T
  opened_size fd (returns ok w) = setup_size fd w
  opened_size fd other = ends other

module _ ⦃a : Avl⦄ (randomno64 : ℕ → Option ℕ) (fse_size : ℕ → ℕ) (fs_size constwss : ℕ) where
  -- With the next tf_fdrotor.
  unfoldable pub flowoplib_filesetup :
      World a.Tree → OpenEnv → Flowop → FdOp → (rotor : ℕ) → Setup a.Tree × ℕ
  unfolding flowoplib_fdnum flowoplib_openfile_common setup_size
  flowoplib_filesetup w env op fdop rotor =
      let (found, rotor') = flowoplib_fdnum fdop rotor in
      elim found [
        | none ↦ (ends (returns error w), rotor')
        | some fd ↦ (
          if is_zero (w.thread.tf_fd fd)
              then opened_size fse_size fs_size constwss fd
                  (flowoplib_openfile_common a randomno64 w env op fd)
              else setup_size fse_size fs_size constwss fd w,
          rotor',
        )
      ]

-- The calls of the file system.
pub data Call : Type 0 where
  read : Iobuf → (size : ℕ) → Call
  pread : Iobuf → (size offset : ℕ) → Call
  write : Iobuf → (size : ℕ) → Call
  pwrite : Iobuf → (size offset : ℕ) → Call
  seek_set : Call
  seek_end : Call

-- How a flowop that is ready ends: its status, the calls in order, the bytes of each flowop_endop in
-- order, and the buffers.
pub record Ended : Type 0 where
  pub status : Status
  pub calls : List Call
  pub endops : List ℕ
  pub buffers : Buffers

abbrev pub refused : Buffers → Ended
refused b = record { status = error; calls = []; endops = []; buffers = b }

-- After FB_READ or FB_PREAD, `none` for -1: a failed one is counted twice; one that gives 0 seeks to
-- the start.
unfoldable pub after_read : Call → Option ℕ → Buffers → Ended
after_read c none b = record { status = error; calls = c ∷ []; endops = 0 ∷ 0 ∷ []; buffers = b }
after_read c (some zero) b = record {
  status = ok;
  calls = c ∷ seek_set ∷ [];
  endops = 0 ∷ [];
  buffers = b;
}
after_read c (some (suc n)) b = record {
  status = ok;
  calls = c ∷ [];
  endops = suc n ∷ [];
  buffers = b;
}

unfoldable pub after_write : Call → (iosize : ℕ) → Option ℕ → Buffers → Ended
after_write c iosize none b = record {
  status = error;
  calls = c ∷ [];
  endops = 0 ∷ [];
  buffers = b;
}
after_write c iosize (some n) b = record {
  status = ok;
  calls = c ∷ [];
  endops = iosize ∷ [];
  buffers = b;
}

-- The random numbers of the buffer and of the offset, and what malloc and the call give.
pub record Answers : Type 0 where
  pub buf_random : ℕ
  pub offset_random : ℕ
  pub room : Bool
  pub answer : Option ℕ

-- flowoplib_read behind flowoplib_filesetup; `random` is fo_random.
unfoldable pub flowoplib_read : Answers → (random : Bool) → (wss iosize : ℕ) → Buffers → Ended
unfolding flowoplib_iobufsetup after_read filebench_randomno64
flowoplib_read x random wss iosize b =
    let (found, b') = flowoplib_iobufsetup x.buf_random x.room iosize b in
    elim found [
      | none ↦ refused b'
      | some iobuf ↦
          if random
          then (elim (filebench_randomno64 x.offset_random wss iosize) [
            | none ↦ refused b'
            | some fileoffset ↦ after_read (pread iobuf iosize fileoffset) x.answer b'
          ])
          else after_read (read iobuf iosize) x.answer b'
    ]

unfoldable pub flowoplib_write : Answers → (random : Bool) → (wss iosize : ℕ) → Buffers → Ended
unfolding flowoplib_iobufsetup after_write filebench_randomno64
flowoplib_write x random wss iosize b =
    let (found, b') = flowoplib_iobufsetup x.buf_random x.room iosize b in
    elim found [
      | none ↦ refused b'
      | some iobuf ↦
          if random
          then (elim (filebench_randomno64 x.offset_random wss iosize) [
            | none ↦ refused b'
            | some fileoffset ↦ after_write (pwrite iobuf iosize fileoffset) iosize x.answer b'
          ])
          else after_write (write iobuf iosize) iosize x.answer b'
    ]

-- ret == iosize
abbrev pub is_whole : Option ℕ → ℕ → Bool
is_whole none size = false
is_whole (some n) size = n == size

-- After the FB_WRITE of an append, which counts as an error where it does not write all its bytes;
-- `none` is -1. `counted` is what flowop_endop is then given.
unfoldable pub after_append : Iobuf → (size counted : ℕ) → Option ℕ → Buffers → Ended
after_append iobuf size counted o b =
    let whole = is_whole o size in
    record {
      status = if whole then ok else error;
      calls = seek_end ∷ write iobuf size ∷ [];
      endops = (if whole then size else counted) ∷ [];
      buffers = b;
    }

-- `flowop_endop(threadflow, flowop, ret)` with a `ret` of -1 takes 2^64 - 1 bytes.
abbrev pub as_bytes : Option ℕ → ℕ
as_bytes none = 18446744073709551615
as_bytes (some n) = n

unfoldable pub flowoplib_appendfile : Answers → (iosize : ℕ) → Buffers → Ended
unfolding flowoplib_iobufsetup after_append
flowoplib_appendfile x iosize b =
    let (found, b') = flowoplib_iobufsetup x.buf_random x.room iosize b in
    elim found [
      | none ↦ refused b'
      | some iobuf ↦ after_append iobuf iosize (as_bytes x.answer) x.answer b'
    ]

-- The size is random, and an append of 0 bytes only counts the operation.
unfoldable pub flowoplib_appendfilerand : Answers → (iosize : ℕ) → Buffers → Ended
unfolding flowoplib_iobufsetup after_append filebench_randomno64
flowoplib_appendfilerand x iosize b =
    if iosize == 0 then refused b else elim (filebench_randomno64 x.offset_random iosize 1) [
      | none ↦ refused b
      | some appendsize ↦
          if appendsize == 0
          then record { status = ok; calls = []; endops = 0 ∷ []; buffers = b }
          else (let (found, b') = flowoplib_iobufsetup x.buf_random x.room appendsize b in
              elim found [
                | none ↦ refused b'
                | some iobuf ↦ after_append iobuf appendsize 0 x.answer b'
              ])
    ]

-- `while ((ret = FB_READ(…)) > 0) bytes += ret;` over the answers, behind which the file ends: the
-- calls, the bytes, and whether the last answer was -1.
unfoldable pub read_loop : Call → List (Option ℕ) → (bytes : ℕ) → List Call × ℕ × Bool
read_loop c [] bytes = (c ∷ [], bytes, false)
read_loop c (none ∷ answers) bytes = (c ∷ [], bytes, true)
read_loop c (some zero ∷ answers) bytes = (c ∷ [], bytes, false)
read_loop c (some (suc n) ∷ answers) bytes =
    let (calls, total, failed) = read_loop c answers (bytes + suc n) in (c ∷ calls, total, failed)

unfoldable pub read_whole : Iobuf → (iosize : ℕ) → List (Option ℕ) → Buffers → Ended
unfolding read_loop
read_whole iobuf iosize answers b =
    let (calls, bytes, failed) = read_loop (read iobuf iosize) answers 0 in
    record {
      status = if failed then error else ok;
      calls = seek_set ∷ calls;
      endops = bytes ∷ [];
      buffers = b;
    }

-- flowoplib_readwholefile behind flowoplib_filesetup.
unfoldable pub flowoplib_readwholefile :
    Answers → List (Option ℕ) → (wss iosize : ℕ) → Buffers → Ended
unfolding flowoplib_iobufsetup read_whole
flowoplib_readwholefile x answers wss iosize b =
    let size = if iosize == 0 then wss else iosize in
    if size == 0
    then read_whole zero_buf size answers b
    else (let (found, b') = flowoplib_iobufsetup x.buf_random x.room size b in
        elim found [ none ↦ refused b' | some iobuf ↦ read_whole iobuf size answers b' ])

-- The loop of flowoplib_writewholefile, on fuel, where every FB_WRITE writes all its bytes: the sizes
-- of the writes, as FB_WRITE and `seek` take the int `wsize`. `wsize` is computed from the old `seek`.
unfoldable pub whole_writes : (fuel wss iosize seek wsize : ℕ) → Option (List ℕ)
whole_writes zero wss iosize seek wsize = if ltb seek wss then none else some []
whole_writes (suc fuel) wss iosize seek wsize =
    let next_size = int_to_uint64 (if ltb (wss - seek) iosize then wss - seek else iosize) in
    let rest = whole_writes fuel wss iosize ((seek + next_size) % 2 ^ 64) next_size in
    if ltb seek wss
    then (elim rest [ none ↦ none | some sizes ↦ some (wsize ∷ sizes) ])
    else some []

-- `wsize = (int)MIN(wss, iosize)` and the loop.
unfoldable pub writewholefile_sizes : (fuel wss iosize : ℕ) → Option (List ℕ)
unfolding whole_writes
writewholefile_sizes fuel wss iosize =
    whole_writes fuel wss iosize 0 (int_to_uint64 (if ltb wss iosize then wss else iosize))
