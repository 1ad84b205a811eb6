-- ===== src/Delta/Termination.antt =====
-- delta.rs, `encode_with_signature`: it ends on every signature whose block size is not 0, and can
-- fail to end on a signature whose block size is 0.
use ripsync.Prelude.{
  ℕ, zero, suc, ◌+◌, ◌≤◌, ◌<◌, ◌≡◌, refl, sym, ◌∙◌, arith, true, Option, none, some, List, [], ◌∷◌,
  length, slice, is_empty, leb, inl, inr, Bool-cases, Option-cases, get_elem?,
}
use mathlib.Core.Path.{subst}
use native.Mathlib.Decide.{dec_lt, dec_le}
use ripsync.Prelude.Words.{u32_mod}
use ripsync.Checksum.{RollingChecksum, strong_hash, new, value}
use ripsync.Delta.{
  Delta, Op, BlockSig, Signature, find, encode_loop, encode_tail, encode_blocks, encode_fuel,
  encode_with_signature,
}
use ripsync.Delta.Table.{find_total}
use ripsync.Delta.Steps.{matched, loop, found_here, loop_slide, loop_stop, loop_jump, loop_done}
use ripsync.Delta.Codec.{encode_fuel_empty, encode_fuel_blocks}

module _ (blake3_hash : List ℕ → List ℕ) where
  module _ (blocks : List BlockSig) (block : ℕ) (new_bytes : List ℕ) (positive : 1 ≤ block) where
    abbrev Returns : Option (List Op × ℕ) → Type 0
    Returns r = (x : List Op × ℕ) × (r ≡ some x)

    loop-Returns :
        (fuel pos lit_start : ℕ) (rc : RollingChecksum) (ops : List Op)
        → length new_bytes < pos + fuel
        → pos + block ≤ length new_bytes
        → Returns (loop blake3_hash blocks block new_bytes fuel pos lit_start rc ops)
    loop-Returns zero pos lit_start rc ops hf hp = absurd (omega arith)
    loop-Returns (suc fuel) pos lit_start rc ops hf hp =
        elim (Option-cases
          (found_here blake3_hash blocks block new_bytes fuel pos lit_start rc ops)) [
            | inl e ↦ elim (dec_lt (pos + block) (length new_bytes)) [
              | yes more ↦
                  subst Returns
                    (sym (
                      loop_slide blake3_hash blocks block new_bytes fuel pos lit_start rc ops e
                        more))
                    (loop-Returns fuel (pos + 1) lit_start _ ops (omega arith) (omega arith))
              | no last ↦ (
                _,
                loop_stop blake3_hash blocks block new_bytes fuel pos lit_start rc ops e
                    (omega arith),
              )
            ]
            | inr (bi, e) ↦ elim (dec_le (pos + block + block) (length new_bytes)) [
              | yes more ↦
                  subst Returns
                    (sym (
                      loop_jump blake3_hash blocks block new_bytes fuel pos lit_start rc ops bi e
                        more))
                    (loop-Returns fuel (pos + block) (pos + block) _ _ (omega arith) more)
              | no last ↦ (
                _,
                loop_done blake3_hash blocks block new_bytes fuel pos lit_start rc ops bi e
                    (omega arith),
              )
            ]
          ]

    blocks-Returns :
        (ops : List Op) × (encode_blocks blake3_hash blocks block new_bytes (length new_bytes + 1)
          ≡ some ops)
    unfolding encode_blocks
    blocks-Returns = elim (Bool-cases (leb block (length new_bytes))) [
      | inr small ↦ (encode_tail blake3_hash blocks block new_bytes [] 0, rw small)
      | inl large ↦
          let (r, e) =
            loop-Returns (length new_bytes + 1) 0 0 (new (slice 0 block new_bytes)) [] (omega arith)
              (ground arith) in
          (encode_tail blake3_hash blocks block new_bytes r.0 r.1, rw large (rw e))
    ]

  -- On every signature with a block size above 0, whoever sent it, the encoder returns a delta
  -- with that block size.
  pub encode_with_signature_total :
      (sig : Signature) (new_bytes : List ℕ)
      → 1 ≤ sig.block_size
      → (d : Delta) × (encode_with_signature blake3_hash sig new_bytes ≡ some d)
        × (d.block_size ≡ sig.block_size)
  unfolding encode_with_signature
  encode_with_signature_total sig new_bytes positive = elim (Bool-cases (is_empty sig.blocks)) [
    | inl e ↦ (_, encode_fuel_empty blake3_hash (length new_bytes + 1) sig new_bytes e, refl)
    | inr e ↦
        let (ops, r) = blocks-Returns sig.blocks sig.block_size new_bytes positive in
        (_, encode_fuel_blocks blake3_hash (length new_bytes + 1) sig new_bytes e r, refl)
  ]

  -- An entry for the empty window.
  abbrev pub DescribesNothing : BlockSig → Type 0
  DescribesNothing block =
      (block.weak ≡ value (new [])) × (block.strong ≡ strong_hash blake3_hash []) × (block.len ≡ 0)

  module _ (blocks : List BlockSig) (new_bytes : List ℕ) where
    loop_stuck :
        (bi : ℕ)
        → find blake3_hash blocks (value (new [])) [] ≡ some bi
        → (fuel : ℕ) (ops : List Op)
        → loop blake3_hash blocks 0 new_bytes fuel 0 0 (new []) ops ≡ none
    loop_stuck bi e zero ops = unfold encode_loop in refl
    loop_stuck bi e (suc fuel) ops =
        loop_jump blake3_hash blocks 0 new_bytes fuel 0 0 (new []) ops bi e (omega arith)
        ∙ loop_stuck bi e fuel (matched blake3_hash blocks 0 new_bytes ops 0 0 bi)

  -- No number of rounds is enough for a signature with block size 0 that has an entry for the
  -- empty window: the window matches and stays where it is, on every input.
  pub encode_fuel_endless :
      (blocks : List BlockSig) (new_bytes : List ℕ) (i : ℕ) {block : BlockSig}
      → length blocks ≤ u32_mod
      → get_elem? blocks i ≡ some block
      → DescribesNothing block
      → (fuel : ℕ)
      → encode_fuel blake3_hash fuel (record { block_size = 0; blocks = blocks }) new_bytes ≡ none
  unfolding encode_fuel encode_blocks
  encode_fuel_endless [] new_bytes i len at h fuel = cc
  encode_fuel_endless (b ∷ blocks) new_bytes i {block} len at (weak, strong, size) fuel =
      let (bi, e) =
        find_total blake3_hash (b ∷ blocks) [] (value (new [])) i len at weak
          (block, at, size, strong) in
      let large : leb 0 (length new_bytes) ≡ true = ground arith in
      rw large (rw (loop_stuck (b ∷ blocks) new_bytes bi e fuel []))
