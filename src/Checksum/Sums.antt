-- ===== src/Checksum/Sums.antt =====
-- checksum.rs, `RollingChecksum::new`: the unrolled loops against the sums of the module's comment.
use native.Mathlib.Nat.{div-add-mod}
use ripsync.Prelude.{ℕ, suc, ◌+◌, ◌*◌, ◌%◌, ◌<◌, ◌≡◌, ap, ◌∙◌, arith}
use ripsync.Prelude.{List, [], ◌∷◌, length}
use ripsync.Prelude.Words.{u32_mod, u32_max, u32_or, wrapping_add, wrapping_sub}
use ripsync.Checksum.{
  RollingChecksum, sum_bytes, weighted, chunk_step, remainder_loop, chunk_loop, new,
}

-- Σ bytes[k]
abbrev pub sum : List ℕ → ℕ
sum [] = 0
sum (x ∷ xs) = x + sum xs

-- Σ (L - k) * bytes[k]
abbrev pub weighted_sum : List ℕ → ℕ
weighted_sum [] = 0
weighted_sum (x ∷ xs) = (length xs + 1) * x + weighted_sum xs

pub mul-mod_mod : (x y : ℕ) → x * (y % u32_mod) % u32_mod ≡ x * y % u32_mod
mul-mod_mod x y = omega (arith, ap (λ (t : ℕ). x * t) (div-add-mod y u32_mod))

-- Σ (w - k) * b_k for the eight bytes of a round, with w = r + 8.
abbrev eight_weighted : ℕ → ℕ → ℕ → ℕ → ℕ → ℕ → ℕ → ℕ → ℕ → ℕ
eight_weighted r b0 b1 b2 b3 b4 b5 b6 b7 =
    (r + 8) * b0
    + ((r + 7) * b1
        + ((r + 6) * b2
            + ((r + 5) * b3 + ((r + 4) * b4 + ((r + 3) * b5 + ((r + 2) * b6 + (r + 1) * b7))))))

module _ (b0 b1 b2 b3 b4 b5 b6 b7 : ℕ) where
  sum_bytes_lem :
      sum_bytes b0 b1 b2 b3 b4 b5 b6 b7 ≡ (b0 + b1 + b2 + b3 + b4 + b5 + b6 + b7) % u32_mod
  unfolding sum_bytes
  sum_bytes_lem = omega arith

  weighted_lem :
      weighted b1 b2 b3 b4 b5 b6 b7
      ≡ (b1 + b2 * 2 + b3 * 3 + b4 * 4 + b5 * 5 + b6 * 6 + b7 * 7) % u32_mod
  unfolding weighted
  weighted_lem = omega arith

  chunk_step_lem :
      (r a b : ℕ)
      → ((chunk_step (r + 8) b0 b1 b2 b3 b4 b5 b6 b7 a b).0
          ≡ (a + (b0 + b1 + b2 + b3 + b4 + b5 + b6 + b7)) % u32_mod)
        × ((chunk_step (r + 8) b0 b1 b2 b3 b4 b5 b6 b7 a b).1
            ≡ (b + eight_weighted r b0 b1 b2 b3 b4 b5 b6 b7) % u32_mod)
  unfolding chunk_step
  chunk_step_lem r a b =
      rw (sum_bytes_lem, weighted_lem)
        (omega arith, omega (arith, mul-mod_mod (r + 8) (b0 + b1 + b2 + b3 + b4 + b5 + b6 + b7)))

-- The weight of byte `i` counts it and the bytes behind it.
remainder_weight : (L i r : ℕ) → L < u32_mod → i + suc r ≡ L → wrapping_sub L (u32_or 0 i) ≡ r + 1
remainder_weight L i r hL hi = ground arith

remainder_loop_step :
    (L i x : ℕ) (rest : List ℕ) (a b : ℕ)
    → L < u32_mod
    → i + suc (length rest) ≡ L
    → remainder_loop L i (x ∷ rest) a b
      ≡ remainder_loop L (i + 1) rest ((a + x) % u32_mod) ((b + (length rest + 1) * x) % u32_mod)
unfolding remainder_loop
remainder_loop_step L i x rest a b hL hi =
    ap (λ (t : ℕ). remainder_loop L (i + 1) rest (wrapping_add a x) t)
      (omega (arith, ap (λ (t : ℕ). t * x) (remainder_weight L i (length rest) hL hi)))

remainder_loop_lem :
    (L i : ℕ) (rest : List ℕ) (a b : ℕ)
    → L < u32_mod
    → i + length rest ≡ L
    → a < u32_mod
    → b < u32_mod
    → ((remainder_loop L i rest a b).0 ≡ (a + sum rest) % u32_mod)
      × ((remainder_loop L i rest a b).1 ≡ (b + weighted_sum rest) % u32_mod)
remainder_loop_lem L i [] a b hL hi ha hb = unfold remainder_loop in omega arith
remainder_loop_lem L i (x ∷ rest) a b hL hi ha hb =
    let ih =
      remainder_loop_lem L (i + 1) rest ((a + x) % u32_mod) ((b + (length rest + 1) * x) % u32_mod)
        hL (omega arith) (omega arith) (omega arith) in
    rw (remainder_loop_step L i x rest a b hL hi) (omega (arith, ih.0), omega (arith, ih.1))

-- One round of the unrolled loop: the weight of its first byte, and the two sums after it.
module _ (L base b0 b1 b2 b3 b4 b5 b6 b7 : ℕ) (rest : List ℕ) (a b : ℕ) (hL : L < u32_mod) where
  chunk_weight : base + (length rest + 8) ≡ L → wrapping_sub L (base % u32_mod) ≡ length rest + 8
  chunk_weight hi = omega arith

  chunk_loop_step :
      base + (length rest + 8) ≡ L
      → chunk_loop L base (b0 ∷ b1 ∷ b2 ∷ b3 ∷ b4 ∷ b5 ∷ b6 ∷ b7 ∷ rest) a b
        ≡ chunk_loop L
            (base + 8)
            rest
            ((a + (b0 + b1 + b2 + b3 + b4 + b5 + b6 + b7)) % u32_mod)
            ((b + eight_weighted (length rest) b0 b1 b2 b3 b4 b5 b6 b7) % u32_mod)
  unfolding chunk_loop
  chunk_loop_step hi = λ i. chunk_loop L (base + 8) rest (first i) (second i)
    where
      after : (w : ℕ) → ℕ × ℕ
      after w = chunk_step w b0 b1 b2 b3 b4 b5 b6 b7 a b

      first :
          (after (wrapping_sub L (base % u32_mod))).0
          ≡ (a + (b0 + b1 + b2 + b3 + b4 + b5 + b6 + b7)) % u32_mod
      first =
          ap (λ w. (after w).0) (chunk_weight hi)
          ∙ (chunk_step_lem b0 b1 b2 b3 b4 b5 b6 b7 (length rest) a b).0

      second :
          (after (wrapping_sub L (base % u32_mod))).1
          ≡ (b + eight_weighted (length rest) b0 b1 b2 b3 b4 b5 b6 b7) % u32_mod
      second =
          ap (λ w. (after w).1) (chunk_weight hi)
          ∙ (chunk_step_lem b0 b1 b2 b3 b4 b5 b6 b7 (length rest) a b).1

-- The two sums that a loop over `rest` leaves, from `a` and `b` on.
abbrev Sums : ℕ × ℕ → ℕ → ℕ → List ℕ → Type 0
Sums s a b rest = (s.0 ≡ (a + sum rest) % u32_mod) × (s.1 ≡ (b + weighted_sum rest) % u32_mod)

chunk_loop_lem :
    (L base : ℕ) (rest : List ℕ) (a b : ℕ)
    → L < u32_mod
    → base + length rest ≡ L
    → a < u32_mod
    → b < u32_mod
    → Sums (chunk_loop L base rest a b) a b rest
chunk_loop_lem L base (b0 ∷ b1 ∷ b2 ∷ b3 ∷ b4 ∷ b5 ∷ b6 ∷ b7 ∷ rest) a b hL hi ha hb =
    let a' = (a + (b0 + b1 + b2 + b3 + b4 + b5 + b6 + b7)) % u32_mod in
    let b' = (b + eight_weighted (length rest) b0 b1 b2 b3 b4 b5 b6 b7) % u32_mod in
    let ih = chunk_loop_lem L (base + 8) rest a' b' hL (omega arith) (omega arith) (omega arith) in
    rw (chunk_loop_step L base b0 b1 b2 b3 b4 b5 b6 b7 rest a b hL (omega arith))
      (omega (arith, ih.0), omega (arith, ih.1))
chunk_loop_lem L base rest a b hL hi ha hb =
    unfold chunk_loop in remainder_loop_lem L base rest a b hL hi ha hb

-- What the documented sums give for a whole window.
abbrev pub checksum_of : List ℕ → RollingChecksum
checksum_of window = record {
  a = sum window % u32_mod;
  b = weighted_sum window % u32_mod;
  window_len = length window;
}

-- On a window shorter than 2 ^ 32 bytes the unrolled loops compute the two documented sums,
-- modulo 2 ^ 32, and the window's length.
pub new-checksum_of : (window : List ℕ) → length window < u32_mod → new window ≡ checksum_of window
unfolding new
new-checksum_of window h =
    let len : u32_or u32_max (length window) ≡ length window = ground arith in
    let s =
      chunk_loop_lem (length window) 0 window 0 0 h (omega arith) (omega arith) (omega arith) in
    let p : (chunk_loop (length window) 0 window 0 0).0 ≡ sum window % u32_mod =
      omega (arith, s.0) in
    let q : (chunk_loop (length window) 0 window 0 0).1 ≡ weighted_sum window % u32_mod =
      omega (arith, s.1) in
    ap
      (λ n. record {
        a = (chunk_loop n 0 window 0 0).0;
        b = (chunk_loop n 0 window 0 0).1;
        window_len = n;
      })
      len
    ∙ λ i. record { a = p i; b = q i; window_len = length window }
