-- ===== src/Limits/Stats.antt =====
-- flowop_endop: which operations the totals count.
use filebench_pre_fsl.Base.{
  ℕ, ◌+◌, ◌%◌, ◌^◌, ◌≡◌, refl, true, ◌||◌, List, [], ◌∷◌, arith, if◌then◌else◌, if_elim,
}
use filebench_pre_fsl.Limits.{
  uint64, FlowType, global, io, aio, sync, composite, other, Attrs, add_op, add_read, add_write,
  Ledger, flowop_endop,
}

record_count :
    (attrs : Attrs) (a b c : Ledger) (n : ℕ)
    → a.control.count ≡ n
    → b.control.count ≡ n
    → c.control.count ≡ n
    → (if attrs.reads then a else if attrs.writes then b else c).control.count ≡ n
record_count attrs a b c n ha hb hc =
    if_elim (λ (l : Ledger). l.control.count ≡ n) attrs.reads (λ _. ha)
      (λ _. if_elim (λ (l : Ledger). l.control.count ≡ n) attrs.writes (λ _. hb) (λ _. hc))

-- flowop_endop adds one to the operations of controlstats, an int, for every type of flowop but
-- FLOW_TYPE_GLOBAL and FLOW_TYPE_COMPOSITE: also for the limit flowops (FLOW_TYPE_OTHER) and the
-- synchronising ones, which do no I/O.
pub endop_counts :
    (t : FlowType) (attrs : Attrs) (bytes : ℕ) (l : Ledger)
    → (flowop_endop t attrs bytes l).control.count ≡ (elim t [
      | global ↦ l.control.count
      | composite ↦ l.control.count
      | _ ↦ (l.control.count + 1) % 2 ^ 32
    ])
unfolding flowop_endop add_op add_read add_write
endop_counts global attrs bytes l = record_count attrs _ _ _ _ refl refl refl
endop_counts io attrs bytes l = record_count attrs _ _ _ _ refl refl refl
endop_counts aio attrs bytes l = record_count attrs _ _ _ _ refl refl refl
endop_counts sync attrs bytes l = record_count attrs _ _ _ _ refl refl refl
endop_counts composite attrs bytes l = record_count attrs _ _ _ _ refl refl refl
endop_counts other attrs bytes l = record_count attrs _ _ _ _ refl refl refl

-- The statistics of a flowop that reads or writes, against those of a thread that runs it only.
pub record Balanced (l : Ledger) : Type 0 where
  pub ops : l.flowop.count ≡ (l.flowop.rcount + l.flowop.wcount) % 2 ^ 32
  pub bytes : uint64 l.flowop.bytes ≡ uint64 (l.thread.rbytes + l.thread.wbytes)
  pub no_rbytes : l.flowop.rbytes ≡ 0
  pub no_wbytes : l.flowop.wbytes ≡ 0

-- The operations of one flowop in one thread, by their bytes.
abbrev pub end_all : FlowType → Attrs → List ℕ → Ledger → Ledger
end_all t attrs [] l = l
end_all t attrs (bytes ∷ rest) l = end_all t attrs rest (flowop_endop t attrs bytes l)

step-Balanced :
    (t : FlowType) (attrs : Attrs) (bytes : ℕ) (l : Ledger)
    → attrs.reads || attrs.writes ≡ true
    → Balanced l
    → Balanced (flowop_endop t attrs bytes l)
unfolding flowop_endop add_op add_read add_write
step-Balanced t attrs bytes l moves b =
    if_elim Balanced attrs.reads
      (λ _. record {
        ops = (let h = b.ops in omega arith);
        bytes = (let h = b.bytes in omega arith);
        no_rbytes = b.no_rbytes;
        no_wbytes = b.no_wbytes;
      })
      (λ no_reads.
        if_elim Balanced attrs.writes
          (λ _. record {
            ops = (let h = b.ops in omega arith);
            bytes = (let h = b.bytes in omega arith);
            no_rbytes = b.no_rbytes;
            no_wbytes = b.no_wbytes;
          })
          (λ no_writes. ground (arith, moves)))

-- From statistics so related (such as all zero), after any operations of a flowop that reads or
-- writes, in a thread that runs no other: its operations are its reads and writes together, up to
-- the wrap-around of the int that counts them at 2^32, and its bytes are, up to wrap-around at 2^64,
-- the bytes that the thread has read and written; but its own counts of bytes read and of bytes
-- written are still zero.
pub end_all-Balanced :
    (t : FlowType) (attrs : Attrs) (sizes : List ℕ) (l : Ledger)
    → attrs.reads || attrs.writes ≡ true
    → Balanced l
    → Balanced (end_all t attrs sizes l)
end_all-Balanced t attrs [] l moves b = b
end_all-Balanced t attrs (bytes ∷ rest) l moves b =
    end_all-Balanced t attrs rest (flowop_endop t attrs bytes l) moves
      (step-Balanced t attrs bytes l moves b)
