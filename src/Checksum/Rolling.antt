-- ===== src/Checksum/Rolling.antt =====
-- checksum.rs, `RollingChecksum::roll`: sliding the window is computing it afresh.
use ripsync.Prelude.{ℕ, suc, ◌+◌, ◌*◌, ◌%◌, ◌<◌, ◌≡◌, ap, sym, ◌∙◌, arith}
use ripsync.Prelude.{List, [], ◌∷◌, ◌++◌, length, length-append}
use ripsync.Prelude.Words.{u32_mod, IsByte, wrapping_add, wrapping_sub, wrapping_mul}
use ripsync.Checksum.{new, roll}
use ripsync.Checksum.Sums.{sum, weighted_sum, checksum_of, new-checksum_of}

sum_snoc : (xs : List ℕ) (y : ℕ) → sum (xs ++ (y ∷ [])) ≡ sum xs + y
sum_snoc [] y = omega arith
sum_snoc (x ∷ xs) y = omega (arith, sum_snoc xs y)

-- Every byte gains one step of weight, and the byte that enters has weight one.
weighted_sum_snoc :
    (xs : List ℕ) (y : ℕ) → weighted_sum (xs ++ (y ∷ [])) ≡ weighted_sum xs + sum xs + y
weighted_sum_snoc [] y = omega arith
weighted_sum_snoc (x ∷ xs) y =
    omega (arith, weighted_sum_snoc xs y, ap (λ (t : ℕ). t * x) (length-append xs (y ∷ [])))

module _ (out_byte in_byte : ℕ) (middle : List ℕ) (h : suc (length middle) < u32_mod)
    (hb : IsByte out_byte) where
  roll-checksum_of :
      roll (checksum_of (out_byte ∷ middle)) out_byte in_byte
      ≡ checksum_of (middle ++ (in_byte ∷ []))
  unfolding roll
  roll-checksum_of = λ i. record { a = a i; b = b i; window_len = len i }
    where
      a :
          wrapping_add (wrapping_sub (sum (out_byte ∷ middle) % u32_mod) out_byte) in_byte
          ≡ sum (middle ++ (in_byte ∷ [])) % u32_mod
      a = omega (arith, sum_snoc middle in_byte)

      b :
          wrapping_add
            (wrapping_sub
              (weighted_sum (out_byte ∷ middle) % u32_mod)
              (wrapping_mul (suc (length middle)) out_byte))
            (wrapping_add (wrapping_sub (sum (out_byte ∷ middle) % u32_mod) out_byte) in_byte)
          ≡ weighted_sum (middle ++ (in_byte ∷ [])) % u32_mod
      b = omega (arith, a, sum_snoc middle in_byte, weighted_sum_snoc middle in_byte)

      len : suc (length middle) ≡ length (middle ++ (in_byte ∷ []))
      len = omega (arith, length-append middle (in_byte ∷ []))

  -- Rolling the checksum of a window of fewer than 2 ^ 32 bytes, the first of them below 256, over
  -- the next byte gives the checksum of the next window.
  pub roll-new : roll (new (out_byte ∷ middle)) out_byte in_byte ≡ new (middle ++ (in_byte ∷ []))
  roll-new =
      ap (λ c. roll c out_byte in_byte) (new-checksum_of (out_byte ∷ middle) h)
      ∙ roll-checksum_of
      ∙ sym (
          new-checksum_of (middle ++ (in_byte ∷ []))
            (omega (arith, length-append middle (in_byte ∷ []))))
