-- ===== src/Strings/Copy.antt =====
-- fb_strlcpy and fb_strlcat of filebench/utils.c: the strings that they leave.
use filebench_pre_fsl.Base.{
  ℕ, zero, suc, ◌+◌, ◌-◌, ◌≤◌, ◌<◌, ◌≡◌, refl, sym, ◌∙◌, ◌≢◌, ◌^◌, ◌⊎◌, inl, inr, List, [], ◌∷◌,
  ◌++◌, arith, length, update, update_same, update_other, ◌==◌, true, false,
}
use mathlib.Core.Path.{subst}
use filebench_pre_fsl.Limits.{sub64}
use filebench_pre_fsl.Ipc.Strings.{Holds}
use filebench_pre_fsl.Strings.{copy_loop, terminate, fb_strlcpy, end_loop, fb_strlcat}

-- The first elements of a list.
abbrev pub take : {A : Type 0} → ℕ → List A → List A
take zero xs = []
take (suc n) [] = []
take (suc n) (x ∷ xs) = x ∷ take n xs

-- From index `i` on there is the string `l`; outside of it, dst is what it was; and the result is the
-- length with the terminating zero.
abbrev Written : (i : ℕ) → (dst : ℕ → ℕ) → List ℕ → (ℕ → ℕ) × ℕ → Type 0
Written i dst l r =
    Holds r.0 i l
    × (r.1 ≡ i + length l + 1)
    × ((k : ℕ) → (k < i) ⊎ (i + length l < k) → r.0 k ≡ dst k)

copy_loop_stops :
    (room : ℕ) (dst src : ℕ → ℕ) (i j : ℕ) → src j ≡ 0 → copy_loop (suc room) dst src i j ≡ (dst, i)
unfolding copy_loop
copy_loop_stops room dst src i j h =
    let stop : (src j == 0) ≡ true = ground arith in rw (stop, copy_loop) refl

copy_loop_goes_on :
    (room : ℕ) (dst src : ℕ → ℕ) (i j : ℕ)
    → src j ≢ 0
    → copy_loop (suc room) dst src i j ≡ copy_loop room (update dst i (src j)) src (i + 1) (j + 1)
unfolding copy_loop
copy_loop_goes_on room dst src i j h =
    let more : (src j == 0) ≡ false = ground arith in rw (more, copy_loop) refl

copy_loop_full : (dst src : ℕ → ℕ) (i j : ℕ) → copy_loop zero dst src i j ≡ (dst, i)
unfolding copy_loop
copy_loop_full dst src i j = refl

ended-Written : (dst : ℕ → ℕ) (i : ℕ) → Written i dst [] (terminate (dst, i))
ended-Written dst i =
    (update_same dst i 0, omega arith, λ k out. update_other dst i k 0 (λ e. ground arith))

copy_loop-Written :
    (room : ℕ) (dst src : ℕ → ℕ) (i j : ℕ) (s : List ℕ)
    → Holds src j s
    → Written i dst (take room s) (terminate (copy_loop room dst src i j))
copy_loop-Written zero dst src i j s h = rw (copy_loop_full dst src i j) (ended-Written dst i)
copy_loop-Written (suc room) dst src i j [] h =
    rw (copy_loop_stops room dst src i j h) (ended-Written dst i)
copy_loop-Written (suc room) dst src i j (c ∷ s) (e, nonzero, h) =
    let (holds, size, outside) =
      copy_loop-Written room (update dst i (src j)) src (i + 1) (j + 1) s h in
    let step = copy_loop_goes_on room dst src i j (λ z. nonzero (sym e ∙ z)) in
    subst (λ r. Written i dst (c ∷ take room s) (terminate r)) (sym step)
      (
        (outside i (inl (omega arith)) ∙ update_same dst i (src j) ∙ e, nonzero, holds),
        omega arith,
        λ k out. outside k (ground arith) ∙ update_other dst i k (src j) (λ f. ground arith),
      )

end_loop_lem :
    (room : ℕ) (dst : ℕ → ℕ) (i : ℕ) (d : List ℕ)
    → Holds dst i d
    → end_loop room dst i ≡ i + length (take room d)
unfolding end_loop
end_loop_lem zero dst i d h = omega arith
end_loop_lem (suc room) dst i [] h =
    let stop : (dst i == 0) ≡ true = ground arith in rw (stop, end_loop) (omega arith)
end_loop_lem (suc room) dst i (c ∷ d) (e, nonzero, h) =
    let more : (dst i == 0) ≡ false = ground arith in
    let rest = end_loop_lem room dst (i + 1) d h in rw (more, end_loop) (omega arith)

-- A string that is kept up to where the next one begins.
Holds-join :
    (n k : ℕ) (dst mem : ℕ → ℕ) (d t : List ℕ)
    → Holds dst k d
    → ((m : ℕ) → m < k + length (take n d) → mem m ≡ dst m)
    → Holds mem (k + length (take n d)) (take (n - length (take n d)) t)
    → Holds mem k (take n (d ++ t))
Holds-join zero k dst mem d t h same rest =
    let none_left : zero - length (take zero d) ≡ 0 = omega arith in
    let here : k + length (take zero d) ≡ k = omega arith in rw (none_left, here) at rest
Holds-join (suc n) k dst mem [] t h same rest =
    let whole : suc n - 0 ≡ suc n = omega arith in
    let here : k + 0 ≡ k = omega arith in rw (whole, here) at rest
Holds-join (suc n) k dst mem (c ∷ d) t (e, nonzero, h) same rest =
    let left : suc n - suc (length (take n d)) ≡ n - length (take n d) = omega arith in
    let there : k + suc (length (take n d)) ≡ k + 1 + length (take n d) = omega arith in
    (
      same k (omega arith) ∙ e,
      nonzero,
      Holds-join n (k + 1) dst mem d t h (λ m lt. same m (omega arith)) (rw (left, there) at rest),
    )

take-length : {A : Type 0} (n : ℕ) (xs : List A) → length (take n xs) ≤ n
take-length zero xs = omega arith
take-length (suc n) [] = omega arith
take-length (suc n) (x ∷ xs) = let rest = take-length n xs in omega arith

-- fb_strlcpy leaves in dst as much of src as has room in dstsize bytes, and a zero; it changes
-- nothing behind the zero.
pub fb_strlcpy_lem :
    (dst src : ℕ → ℕ) (room : ℕ) (s : List ℕ)
    → room < 2 ^ 32
    → Holds src 0 s
    → Holds (fb_strlcpy dst src (suc room)).0 0 (take room s)
      × ((k : ℕ) → length (take room s) < k → (fb_strlcpy dst src (suc room)).0 k ≡ dst k)
unfolding fb_strlcpy
fb_strlcpy_lem dst src room s lt h =
    let size : sub64 (suc room) 1 ≡ room = ground arith in
    let (holds, _, outside) = copy_loop-Written room dst src 0 0 s h in
    rw (size, fb_strlcpy) (holds, λ k beyond. outside k (inr (omega arith)))

-- fb_strlcat leaves as much of dst and src behind each other as has room, and changes nothing behind
-- dstsize bytes.
pub fb_strlcat_lem :
    (dst src : ℕ → ℕ) (room : ℕ) (d t : List ℕ)
    → room < 2 ^ 32
    → Holds dst 0 d
    → Holds src 0 t
    → Holds (fb_strlcat dst src (suc room)).0 0 (take room (d ++ t))
      × ((k : ℕ) → room < k → (fb_strlcat dst src (suc room)).0 k ≡ dst k)
unfolding fb_strlcat
fb_strlcat_lem dst src room d t lt h g =
    let size : sub64 (suc room) 1 ≡ room = ground arith in
    let len = length (take room d) in
    let at : end_loop room dst 0 ≡ len = end_loop_lem room dst 0 d h ∙ (omega arith) in
    let fits = take-length room d in
    let fits' = take-length (room - len) t in
    let start : 0 + len ≡ len = omega arith in
    let (holds, _, outside) = copy_loop-Written (room - len) dst src len 0 t g in
    rw (size, at, fb_strlcat)
      (
        Holds-join room 0 dst _ d t h (λ m below. outside m (inl (omega arith))) (rw start holds),
        λ k beyond. outside k (inr (omega arith)),
      )
