-- ===== src/Strings.antt =====
-- filebench/utils.c: fb_strlcpy and fb_strlcat. A string is in a memory, a function from indexes to
-- bytes; the two strings do not overlap. `uint_t i` does not wrap around for a dstsize of up to
-- 2^32 - 1, and dstsize - 1 is computed in 64 bits.
pub mod Copy
use filebench_pre_fsl.Base.{ℕ, true, false, zero, suc, ◌+◌, ◌-◌, ◌==◌, update}
use filebench_pre_fsl.Limits.{sub64}

-- The loop that copies, with so many bytes of room before dstsize - 1; fb_strlcpy has one index for
-- both strings.
unfoldable pub copy_loop : (room : ℕ) → (dst src : ℕ → ℕ) → (i j : ℕ) → (ℕ → ℕ) × ℕ
copy_loop zero dst src i j = (dst, i)
copy_loop (suc room) dst src i j = elim (src j == 0) [
  | true ↦ (dst, i)
  | false ↦ copy_loop room (update dst i (src j)) src (i + 1) (j + 1)
]

-- `dst[i] = '\0'; i++; return (i);`
abbrev pub terminate : (ℕ → ℕ) × ℕ → (ℕ → ℕ) × ℕ
terminate (dst, i) = (update dst i 0, i + 1)

unfoldable pub fb_strlcpy : (dst src : ℕ → ℕ) → (dstsize : ℕ) → (ℕ → ℕ) × ℕ
unfolding copy_loop
fb_strlcpy dst src dstsize = terminate (copy_loop (sub64 dstsize 1) dst src 0 0)

-- The loop that looks for the end of dst.
unfoldable pub end_loop : (room : ℕ) → (dst : ℕ → ℕ) → (i : ℕ) → ℕ
end_loop zero dst i = i
end_loop (suc room) dst i = elim (dst i == 0) [ true ↦ i | false ↦ end_loop room dst (i + 1) ]

unfoldable pub fb_strlcat : (dst src : ℕ → ℕ) → (dstsize : ℕ) → (ℕ → ℕ) × ℕ
unfolding copy_loop end_loop
fb_strlcat dst src dstsize =
    let i = end_loop (sub64 dstsize 1) dst 0 in
    terminate (copy_loop (sub64 dstsize 1 - i) dst src i 0)
