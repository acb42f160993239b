-- ===== src/FileOps/Dirs/Fsync.antt =====
-- flowoplib_fsync and flowoplib_fsyncset of filebench/flowop_library.c.
use filebench_pre_fsl.Base.{
  ℕ, zero, suc, ◌+◌, ◌≡◌, Bool, ◌&&◌, List, [], ◌∷◌, arith, ltb, leb, ◌==◌, if◌then◌else◌,
  Bool-cases, inl, inr, ap, ◌∙◌, Order-cases,
}
use filebench_pre_fsl.Descriptors.{threadflow_maxfd}
use filebench_pre_fsl.FileOps.{Threadflow}
use filebench_pre_fsl.FileOps.Dirs.{Ask, fsync, fsync_matches, fsync_from, flowoplib_fsyncset}

-- How often a descriptor is synchronised.
abbrev pub fsyncs : ℕ → List Ask → ℕ
fsyncs fd [] = 0
fsyncs fd (fsync k ∷ rest) = (if k == fd then 1 else 0) + fsyncs fd rest
fsyncs fd (_ ∷ rest) = fsyncs fd rest

-- One if so.
abbrev pub once : Bool → ℕ
once b = if b then 1 else 0

fsync_from-fsyncs :
    (thread : Threadflow) (in_fileset : ℕ → Bool) (left at fd : ℕ)
    → fsyncs fd (fsync_from thread in_fileset left at)
      ≡ once (leb at fd && ltb fd (at + left) && fsync_matches thread in_fileset fd)
unfolding fsync_from
fsync_from-fsyncs thread in_fileset zero at fd = ground arith
fsync_from-fsyncs thread in_fileset (suc left) at fd =
    let rest = fsync_from-fsyncs thread in_fileset left (at + 1) fd in
    let b = fsync_matches thread in_fileset at in
    let same : at ≡ fd → fsync_matches thread in_fileset at ≡ fsync_matches thread in_fileset fd =
      (λ e. ap (fsync_matches thread in_fileset) e) in
    elim (Bool-cases b) [
      | inl matches ↦ elim (Order-cases at fd) [
        | inl before ↦ rw (matches, fsync_from) (ground arith)
        | inr (inl here) ↦ let matches' = same here in rw (matches, fsync_from) (ground arith)
        | inr (inr behind) ↦ rw (matches, fsync_from) (ground arith)
      ]
      | inr other ↦ elim (Order-cases at fd) [
        | inl before ↦ rw (other, fsync_from) (ground arith)
        | inr (inl here) ↦ let other' = same here in rw (other, fsync_from) (ground arith)
        | inr (inr behind) ↦ rw (other, fsync_from) (ground arith)
      ]
    ]

from_zero : (fd n : ℕ) (b : Bool) → once (leb 0 fd && ltb fd (0 + n) && b) ≡ once (ltb fd n && b)
from_zero fd n b = ground arith

-- flowoplib_fsyncset synchronises each descriptor below THREADFLOW_MAXFD whose entry is of the
-- flowop's fileset once, and no other.
fsyncset_lem :
    (thread : Threadflow) (in_fileset : ℕ → Bool) (fd : ℕ)
    → fsyncs fd (flowoplib_fsyncset thread in_fileset)
      ≡ once (ltb fd threadflow_maxfd && fsync_matches thread in_fileset fd)
unfolding flowoplib_fsyncset
fsyncset_lem thread in_fileset fd =
    fsync_from-fsyncs thread in_fileset threadflow_maxfd 0 fd
    ∙ from_zero fd threadflow_maxfd (fsync_matches thread in_fileset fd)
