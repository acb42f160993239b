-- ===== src/FileOps/Io/Bounds.antt =====
-- The flowops of filebench/flowop_library.c that read, write and append: what their I/O touches.
use filebench_pre_fsl.Base.{
  ==_iff, List, [], ◌∷◌, if◌then◌else◌, ℕ, zero, suc, ◌+◌, ◌≤◌, ◌≡◌, refl, inl, inr, Bool, not,
  Option, none, some, ltb, ◌==◌, if_elim, Bool-cases, Option-cases, All, arith,
}
use filebench_pre_fsl.Random.{filebench_randomno64}
use filebench_pre_fsl.Random.Range.{randomno64_range}
use filebench_pre_fsl.FileOps.Io.{
  Buffers, Iobuf, tf_mem, private_buf, zero_buf, drop_small, flowoplib_iobufsetup, Call, read,
  pread, refused, write, pwrite, seek_set, seek_end, Ended, after_read, after_write, Answers,
  flowoplib_read, flowoplib_write, after_append, as_bytes, flowoplib_appendfile,
  flowoplib_appendfilerand, read_loop, read_whole, flowoplib_readwholefile,
}

-- The buffer has room for so many bytes.
abbrev pub HasRoom : Buffers → Iobuf → ℕ → Type 0
HasRoom b (tf_mem o) n = o + n ≤ b.tf_constmemsize
HasRoom b private_buf n = (length : ℕ) × (b.fo_buf ≡ some length) × (n ≤ length)
HasRoom b zero_buf n = n ≤ 1

-- The call stays in its buffer, and with an offset within the working set.
abbrev pub InBounds : (wss : ℕ) → Buffers → Call → Type 0
InBounds wss b (read buf n) = HasRoom b buf n
InBounds wss b (write buf n) = HasRoom b buf n
InBounds wss b (pread buf n offset) = HasRoom b buf n × (offset + n ≤ wss)
InBounds wss b (pwrite buf n offset) = HasRoom b buf n × (offset + n ≤ wss)
InBounds wss b seek_set = Unit
InBounds wss b seek_end = Unit

-- fo_buf_size does not claim more than was allocated.
abbrev pub SizeFits : Buffers → Type 0
SizeFits b = (length : ℕ) → b.fo_buf ≡ some length → b.fo_buf_size ≤ length

-- The buffer that was found has room, if one was, and the sizes still fit.
abbrev SetUp : ℕ → Option Iobuf × Buffers → Type 0
SetUp n r = SizeFits r.1 × ((buf : Iobuf) → r.0 ≡ some buf → HasRoom r.1 buf n)

nothing_SetUp : (n : ℕ) (b : Buffers) → SizeFits b → SetUp n (none, b)
nothing_SetUp n b h = (h, λ buf e. absurd (cc))

drop_small_fits :
    (n : ℕ) (b : Buffers) (length : ℕ) → SizeFits b → drop_small n b ≡ some length → n ≤ length
unfolding drop_small
drop_small_fits n b length h e = elim (Option-cases (b.fo_buf)) [
  | inl null ↦ absurd (let stuck : none ≡ some length = rw (null, drop_small) at e in cc)
  | inr (m, there) ↦ elim (Bool-cases (ltb b.fo_buf_size n)) [
    | inl small ↦ absurd (let stuck : none ≡ some length = rw (there, small, drop_small) at e in cc)
    | inr large ↦
        let same : some m ≡ some length = rw (there, large, drop_small) at e in
        let same' : m ≡ length = cc in
        let fits : b.fo_buf_size ≤ m = h m there in
        let enough : n ≤ b.fo_buf_size = ground arith in omega arith
  ]
]

own-SetUp :
    (n length : ℕ) (b : Buffers)
    → n ≤ length
    → SetUp n (some private_buf, record b { fo_buf = some length; fo_buf_size = n })
own-SetUp n length b le = (
  λ m e. let same : length ≡ m = cc in omega arith,
  λ buf e. at buf (let same : private_buf ≡ buf = cc in same),
)
  where
    at :
        (buf : Iobuf)
        → private_buf ≡ buf
        → HasRoom (record b { fo_buf = some length; fo_buf_size = n }) buf n
    at private_buf e = (length, refl, le)
    at (tf_mem o) e = absurd (cc)
    at zero_buf e = absurd (cc)

iobufsetup-SetUp :
    (random : ℕ) (room : Bool) (n : ℕ) (b : Buffers)
    → SizeFits b
    → SetUp n (flowoplib_iobufsetup random room n b)
unfolding flowoplib_iobufsetup
iobufsetup-SetUp random room n b h =
    if_elim (SetUp n) (n == 0) (λ _. nothing_SetUp n b h)
      (λ _.
        if_elim (SetUp n) (not (b.tf_constmemsize == 0))
          (λ _. elim (randomno64_range random b.tf_constmemsize n) [
            | inl (e, _) ↦ rw e (nothing_SetUp n b h)
            | inr (o, e, le) ↦
                rw e (h, λ buf f. at o le buf (let same : tf_mem o ≡ buf = cc in same))
          ])
          (λ _. elim (Option-cases (drop_small n b)) [
            | inr (length, e) ↦ rw e (own-SetUp n length b (drop_small_fits n b length h e))
            | inl e ↦ rw e (
                if_elim (SetUp n) room (λ _. own-SetUp n n b (omega arith))
                  (λ _. nothing_SetUp n (record b { fo_buf = none }) (λ m f. absurd (cc))))
          ]))
  where
    at : (o : ℕ) → o + n ≤ b.tf_constmemsize → (buf : Iobuf) → tf_mem o ≡ buf → HasRoom b buf n
    at o le (tf_mem p) e = let same : o ≡ p = cc in omega arith
    at o le private_buf e = absurd (cc)
    at o le zero_buf e = absurd (cc)

-- All calls in bounds, and the sizes fit.
abbrev pub Safe : (wss : ℕ) → Ended → Type 0
Safe wss r = All (InBounds wss r.buffers) r.calls × SizeFits r.buffers

after_read-Safe :
    (wss : ℕ) (c : Call) (o : Option ℕ) (b : Buffers)
    → InBounds wss b c
    → SizeFits b
    → Safe wss (after_read c o b)
unfolding after_read
after_read-Safe wss c none b h f = ((h, tt), f)
after_read-Safe wss c (some zero) b h f = ((h, (tt, tt)), f)
after_read-Safe wss c (some (suc n)) b h f = ((h, tt), f)

after_write-Safe :
    (wss : ℕ) (c : Call) (n : ℕ) (o : Option ℕ) (b : Buffers)
    → InBounds wss b c
    → SizeFits b
    → Safe wss (after_write c n o b)
unfolding after_write
after_write-Safe wss c n none b h f = ((h, tt), f)
after_write-Safe wss c n (some k) b h f = ((h, tt), f)

-- An I/O at a random offset, or where the file stands.
random_Safe :
    (wss n offset_random : ℕ) (b : Buffers) (at : ℕ → Ended)
    → SizeFits b
    → ((o : ℕ) → o + n ≤ wss → Safe wss (at o))
    → Safe wss
        (elim (filebench_randomno64 offset_random wss n) [ none ↦ refused b | some o ↦ at o ])
random_Safe wss n offset_random b at f h = elim (randomno64_range offset_random wss n) [
  | inl (e, _) ↦ rw e (tt, f)
  | inr (o, e, le) ↦ rw e (h o le)
]

read_and_write-Safe :
    (x : Answers) (random : Bool) (wss iosize : ℕ) (b : Buffers)
    → SizeFits b
    → Safe wss (flowoplib_read x random wss iosize b)
      × Safe wss (flowoplib_write x random wss iosize b)
unfolding flowoplib_read flowoplib_write
read_and_write-Safe x random wss iosize b h = elim (Option-cases (r.0)) [
  | inl e ↦ (rw (e, flowoplib_read) (tt, set_up.0), rw (e, flowoplib_write) (tt, set_up.0))
  | inr (buf, e) ↦
      let room = set_up.1 buf e in
      (
        rw (e, flowoplib_read)
            (if_elim (Safe wss) random
              (λ _.
                random_Safe wss iosize x.offset_random r.1
                  (λ o. after_read (pread buf iosize o) x.answer r.1) set_up.0
                  (λ o le.
                    after_read-Safe wss (pread buf iosize o) x.answer r.1 (room, le) set_up.0))
              (λ _. after_read-Safe wss (read buf iosize) x.answer r.1 room set_up.0)),
        rw (e, flowoplib_write)
            (if_elim (Safe wss) random
              (λ _.
                random_Safe wss iosize x.offset_random r.1
                  (λ o. after_write (pwrite buf iosize o) iosize x.answer r.1) set_up.0
                  (λ o le.
                    after_write-Safe wss (pwrite buf iosize o) iosize x.answer r.1 (room, le)
                      set_up.0))
              (λ _. after_write-Safe wss (write buf iosize) iosize x.answer r.1 room set_up.0)),
      )
]
  where
    r : Option Iobuf × Buffers
    r = flowoplib_iobufsetup x.buf_random x.room iosize b

    set_up : SetUp iosize r
    set_up = iobufsetup-SetUp x.buf_random x.room iosize b h

after_append-Safe :
    (wss : ℕ) (buf : Iobuf) (n counted : ℕ) (o : Option ℕ) (b : Buffers)
    → HasRoom b buf n
    → SizeFits b
    → Safe wss (after_append buf n counted o b)
unfolding after_append
after_append-Safe wss buf n counted o b h f = ((tt, (h, tt)), f)

-- An I/O behind flowoplib_iobufsetup.
with_buffer-Safe :
    (x : Answers) (wss n : ℕ) (b : Buffers) (io : Iobuf → Buffers → Ended)
    → SizeFits b
    → ((buf : Iobuf) (b' : Buffers) → HasRoom b' buf n → SizeFits b' → Safe wss (io buf b'))
    → Safe wss (elim ((flowoplib_iobufsetup x.buf_random x.room n b).0) [
      | none ↦ refused (flowoplib_iobufsetup x.buf_random x.room n b).1
      | some buf ↦ io buf (flowoplib_iobufsetup x.buf_random x.room n b).1
    ])
with_buffer-Safe x wss n b io h k = elim (Option-cases (r.0)) [
  | inl e ↦ rw e (tt, set_up.0)
  | inr (buf, e) ↦ rw e (k buf r.1 (set_up.1 buf e) set_up.0)
]
  where
    r : Option Iobuf × Buffers
    r = flowoplib_iobufsetup x.buf_random x.room n b

    set_up : SetUp n r
    set_up = iobufsetup-SetUp x.buf_random x.room n b h

read_loop-InBounds :
    (wss : ℕ) (b : Buffers) (c : Call) (answers : List (Option ℕ)) (bytes : ℕ)
    → InBounds wss b c
    → All (InBounds wss b) (read_loop c answers bytes).0
unfolding read_loop
read_loop-InBounds wss b c [] bytes h = (h, tt)
read_loop-InBounds wss b c (none ∷ answers) bytes h = (h, tt)
read_loop-InBounds wss b c (some zero ∷ answers) bytes h = (h, tt)
read_loop-InBounds wss b c (some (suc n) ∷ answers) bytes h =
    (h, read_loop-InBounds wss b c answers (bytes + suc n) h)

read_whole-Safe :
    (wss n : ℕ) (buf : Iobuf) (answers : List (Option ℕ)) (b : Buffers)
    → HasRoom b buf n
    → SizeFits b
    → Safe wss (read_whole buf n answers b)
unfolding read_whole
read_whole-Safe wss n buf answers b h f =
    ((tt, read_loop-InBounds wss b (read buf n) answers 0 h), f)

appends-Safe :
    (x : Answers) (wss iosize : ℕ) (b : Buffers)
    → SizeFits b
    → Safe wss (flowoplib_appendfile x iosize b) × Safe wss (flowoplib_appendfilerand x iosize b)
unfolding flowoplib_appendfile flowoplib_appendfilerand
appends-Safe x wss iosize b h = (
  with_buffer-Safe x wss iosize b
      (λ buf b'. after_append buf iosize (as_bytes x.answer) x.answer b') h
      (λ buf b'. after_append-Safe wss buf iosize (as_bytes x.answer) x.answer b'),
  if_elim (Safe wss) (iosize == 0) (λ _. (tt, h))
      (λ _. elim (Option-cases (filebench_randomno64 x.offset_random iosize 1)) [
        | inl e ↦ rw e (tt, h)
        | inr (n, e) ↦ rw e (
            if_elim (Safe wss) (n == 0) (λ _. (tt, h))
              (λ _.
                with_buffer-Safe x wss n b (λ buf b'. after_append buf n 0 x.answer b') h
                  (λ buf b'. after_append-Safe wss buf n 0 x.answer b')))
      ]),
)

readwhole-Safe :
    (x : Answers) (answers : List (Option ℕ)) (wss iosize : ℕ) (b : Buffers)
    → SizeFits b
    → Safe wss (flowoplib_readwholefile x answers wss iosize b)
unfolding flowoplib_readwholefile
readwhole-Safe x answers wss iosize b h =
    let size = if iosize == 0 then wss else iosize in
    if_elim (Safe wss) (size == 0)
      (λ e.
        read_whole-Safe wss size zero_buf answers b
          (let none_left : size ≡ 0 = (==_iff size 0).0 e in omega arith) h)
      (λ _.
        with_buffer-Safe x wss size b (λ buf b'. read_whole buf size answers b') h
          (λ buf b'. read_whole-Safe wss size buf answers b'))

-- Where fo_buf_size is not above the length of fo_buf, flowoplib_read, _write, _appendfile,
-- _appendfilerand and _readwholefile, behind flowoplib_filesetup, read and write only inside tf_mem,
-- fo_buf or, with at most one byte, the one-byte buffer, and with a random offset inside the working
-- set, whatever the random numbers and the answers are; and fo_buf_size is still not above the
-- length of fo_buf.
pub io_flowops-Safe :
    (x : Answers) (random : Bool) (answers : List (Option ℕ)) (wss iosize : ℕ) (b : Buffers)
    → SizeFits b
    → Safe wss (flowoplib_read x random wss iosize b)
      × Safe wss (flowoplib_write x random wss iosize b)
      × Safe wss (flowoplib_appendfile x iosize b)
      × Safe wss (flowoplib_appendfilerand x iosize b)
      × Safe wss (flowoplib_readwholefile x answers wss iosize b)
io_flowops-Safe x random answers wss iosize b h = (
  (read_and_write-Safe x random wss iosize b h).0,
  (read_and_write-Safe x random wss iosize b h).1,
  (appends-Safe x wss iosize b h).0,
  (appends-Safe x wss iosize b h).1,
  readwhole-Safe x answers wss iosize b h,
)
