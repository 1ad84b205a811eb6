-- ===== src/Delta/Codec.antt =====
-- delta.rs, `encode` and `apply` as their callers use them.
use ripsync.Prelude.{
  ℕ, ◌+◌, ◌≤◌, ◌<◌, ◌≡◌, inl, inr, refl, ap, ◌∙◌, arith, true, false, Option, none, some, List, [],
  ◌∷◌, length, is_empty, Bool-cases, if◌then◌else◌, ok,
}
use ripsync.Prelude.Words.{u32_mod, u32_max, u32_or}
use ripsync.Delta.{
  Delta, Op, literal, Signature, block_choice, block_size_for, compute, encode_blocks, encode_fuel,
  encode_with_signature, encode, apply_ops, apply,
}
use ripsync.Delta.Blocks.{blocks_of}
use ripsync.Delta.RoundTrip.{NoCollision, encode_blocks-Rebuilds}

-- The block size is never 0, whatever the square root and the override are.
pub block_choice_pos :
    (blake3_hash : List ℕ → List ℕ) (sqrt_round : ℕ → ℕ) (old_len : ℕ) (block_override : Option ℕ)
    → 1 ≤ block_choice blake3_hash sqrt_round old_len block_override
unfolding block_size_for
block_choice_pos blake3_hash sqrt_round old_len none = omega arith
block_choice_pos blake3_hash sqrt_round old_len (some b) = omega arith

module _ (blake3_hash : List ℕ → List ℕ) where
  -- The two ways through `encode_with_signature`.
  pub encode_fuel_empty :
      (fuel : ℕ) (sig : Signature) (new_bytes : List ℕ)
      → is_empty sig.blocks ≡ true
      → encode_fuel blake3_hash fuel sig new_bytes
        ≡ some (record {
          block_size = sig.block_size;
          ops = if is_empty new_bytes then [] else literal new_bytes ∷ [];
        })
  unfolding encode_fuel
  encode_fuel_empty fuel sig new_bytes e = rw e

  pub encode_fuel_blocks :
      (fuel : ℕ) (sig : Signature) (new_bytes : List ℕ) {ops : List Op}
      → is_empty sig.blocks ≡ false
      → encode_blocks blake3_hash sig.blocks sig.block_size new_bytes fuel ≡ some ops
      → encode_fuel blake3_hash fuel sig new_bytes
        ≡ some (record { block_size = sig.block_size; ops = ops })
  unfolding encode_fuel
  encode_fuel_blocks fuel sig new_bytes e r = rw (e, encode_fuel) (rw r)

  apply_literal :
      (old new_bytes : List ℕ) (block : ℕ)
      → apply_ops old block (if is_empty new_bytes then [] else literal new_bytes ∷ []) []
        ≡ ok new_bytes
  unfolding apply_ops
  apply_literal old [] block = refl
  apply_literal old (x ∷ xs) block = refl

  module _ (sqrt_round : ℕ → ℕ) (old new_bytes : List ℕ) (block_override : Option ℕ) where
    abbrev pub chosen : ℕ
    chosen = block_choice blake3_hash sqrt_round (length old) block_override

    pub compute-blocks_of :
        (positive : 1 ≤ chosen) (short : length old < u32_mod)
        → chosen < u32_mod
        → compute blake3_hash sqrt_round old block_override
          ≡ record { block_size = chosen; blocks = blocks_of blake3_hash chosen old positive short }
    unfolding compute
    compute-blocks_of positive short fits =
        let same : u32_or u32_max chosen ≡ chosen = ground arith in
        λ i. record {
          block_size = same i;
          blocks = blocks_of blake3_hash chosen old positive short;
        }

    -- `encode` runs on the blocks of `old`.
    pub encode-blocks_of :
        (positive : 1 ≤ chosen) (short : length old < u32_mod)
        → chosen < u32_mod
        → encode blake3_hash sqrt_round old new_bytes block_override
          ≡ encode_fuel blake3_hash
              (length new_bytes + 1)
              (record {
                block_size = chosen;
                blocks = blocks_of blake3_hash chosen old positive short;
              })
              new_bytes
    unfolding encode encode_with_signature
    encode-blocks_of positive short fits =
        ap (λ sig. encode_fuel blake3_hash (length new_bytes + 1) sig new_bytes)
          (compute-blocks_of positive short fits)

    -- Applying to `old` what `encode` made of `old` and `new` gives `new`, for every override and
    -- every square root, where both the buffer's length and the block size fit in 32 bits and the
    -- strong hash does not confuse a window of `new` with a block of `old`.
    pub apply-encode :
        length old < u32_mod
        → chosen < u32_mod
        → NoCollision blake3_hash chosen old new_bytes
        → (d : Delta) × (encode blake3_hash sqrt_round old new_bytes block_override ≡ some d)
          × (apply old d ≡ ok new_bytes)
    unfolding apply
    apply-encode short fits distinct =
        let positive = block_choice_pos blake3_hash sqrt_round (length old) block_override in
        let blocks = blocks_of blake3_hash chosen old positive short in
        let sig : Signature = record { block_size = chosen; blocks = blocks } in
        let start = encode-blocks_of positive short fits in
        elim (Bool-cases (is_empty blocks)) [
          | inl e ↦ (
            record {
              block_size = chosen;
              ops = if is_empty new_bytes then [] else literal new_bytes ∷ [];
            },
            start ∙ encode_fuel_empty (length new_bytes + 1) sig new_bytes e,
            apply_literal old new_bytes chosen,
          )
          | inr e ↦
              let (ops, r, rebuilt) =
                encode_blocks-Rebuilds blake3_hash chosen old new_bytes positive short distinct in
              (
                record { block_size = chosen; ops = ops },
                start ∙ encode_fuel_blocks (length new_bytes + 1) sig new_bytes e r,
                rebuilt,
              )
        ]
