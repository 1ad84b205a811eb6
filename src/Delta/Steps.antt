-- ===== src/Delta/Steps.antt =====
-- delta.rs, `encode_with_signature`: one round of its loop, in each of the four cases.
use ripsync.Prelude.{
  ℕ, suc, ◌+◌, ◌-◌, ◌≤◌, ◌<◌, ◌≡◌, ◌∙◌, arith, false, Option, none, some, List, [], ◌∷◌, ◌++◌,
  length, slice, ltb, leb, if◌then◌else◌, lt→ltb, le→leb, is_empty_nil, is_empty_cons, length-slice,
}
use ripsync.Checksum.{RollingChecksum, new, roll, value}
use ripsync.Delta.{Op, copy, literal, BlockSig, find, flush, byte_at, encode_loop, encode_tail}

module _ (blake3_hash : List ℕ → List ℕ) (blocks : List BlockSig) (block : ℕ)
    (new_bytes : List ℕ) where
  -- The operations and the checksum after a match of block `bi` at `pos`.
  abbrev pub matched : List Op → ℕ → ℕ → ℕ → List Op
  matched ops lit_start pos bi =
      flush blake3_hash blocks block new_bytes ops lit_start pos ++ (copy bi ∷ [])

  abbrev pub fresh : ℕ → RollingChecksum
  fresh pos = new (slice pos (pos + block) new_bytes)

  abbrev pub rolled : RollingChecksum → ℕ → RollingChecksum
  rolled rc pos =
      roll rc (byte_at blake3_hash blocks block new_bytes pos)
        (byte_at blake3_hash blocks block new_bytes (pos + block))

  abbrev pub loop : ℕ → ℕ → ℕ → RollingChecksum → List Op → Option (List Op × ℕ)
  loop = encode_loop blake3_hash blocks block new_bytes

  module _ (fuel pos lit_start : ℕ) (rc : RollingChecksum) (ops : List Op) where
    abbrev pub found_here : Option ℕ
    found_here = find blake3_hash blocks (value rc) (slice pos (pos + block) new_bytes)

    loop_missed :
        found_here ≡ none
        → loop (suc fuel) pos lit_start rc ops ≡ (
            if ltb (pos + block) (length new_bytes)
            then loop fuel (pos + 1) lit_start (rolled rc pos) ops
            else some (ops, lit_start))
    unfolding encode_loop
    loop_missed e = rw (e, encode_loop)

    loop-matched :
        (bi : ℕ)
        → found_here ≡ some bi
        → loop (suc fuel) pos lit_start rc ops ≡ (
            if leb (pos + block + block) (length new_bytes)
            then loop fuel
                (pos + block)
                (pos + block)
                (fresh (pos + block))
                (matched ops lit_start pos bi)
            else some (matched ops lit_start pos bi, pos + block))
    unfolding encode_loop
    loop-matched bi e = rw (e, encode_loop)

    pub loop_slide :
        found_here ≡ none
        → pos + block < length new_bytes
        → loop (suc fuel) pos lit_start rc ops ≡ loop fuel (pos + 1) lit_start (rolled rc pos) ops
    loop_slide e h = loop_missed e ∙ rw (lt→ltb _ _ h)

    pub loop_stop :
        found_here ≡ none
        → length new_bytes ≤ pos + block
        → loop (suc fuel) pos lit_start rc ops ≡ some (ops, lit_start)
    loop_stop e h =
        let no_room : ltb (pos + block) (length new_bytes) ≡ false = ground arith in
        loop_missed e ∙ rw no_room

    pub loop_jump :
        (bi : ℕ)
        → found_here ≡ some bi
        → pos + block + block ≤ length new_bytes
        → loop (suc fuel) pos lit_start rc ops
          ≡ loop fuel
              (pos + block)
              (pos + block)
              (fresh (pos + block))
              (matched ops lit_start pos bi)
    loop_jump bi e h = loop-matched bi e ∙ rw (le→leb _ _ h)

    pub loop_done :
        (bi : ℕ)
        → found_here ≡ some bi
        → length new_bytes < pos + block + block
        → loop (suc fuel) pos lit_start rc ops ≡ some (matched ops lit_start pos bi, pos + block)
    loop_done bi e h =
        let no_room : leb (pos + block + block) (length new_bytes) ≡ false = ground arith in
        loop-matched bi e ∙ rw no_room

  module _ (ops : List Op) (lit_start : ℕ) where
    abbrev pub remaining : List ℕ
    remaining = slice lit_start (length new_bytes) new_bytes

    length-remaining : length remaining ≡ length new_bytes - lit_start
    length-remaining = length-slice lit_start (length new_bytes) new_bytes (omega arith)

    pub tail_empty :
        length new_bytes ≤ lit_start
        → encode_tail blake3_hash blocks block new_bytes ops lit_start ≡ ops
    unfolding encode_tail
    tail_empty h = rw (is_empty_nil remaining (omega (arith, length-remaining)))

    tail_cases :
        lit_start < length new_bytes
        → (r : Option ℕ) → find blake3_hash blocks (value (new remaining)) remaining ≡ r
        → encode_tail blake3_hash blocks block new_bytes ops lit_start
          ≡ elim r [ some bi ↦ ops ++ (copy bi ∷ []) | none ↦ ops ++ (literal remaining ∷ []) ]
    unfolding encode_tail
    tail_cases h r e = rw (is_empty_cons remaining (omega (arith, length-remaining)), e)

    pub tail_matched :
        lit_start < length new_bytes
        → (bi : ℕ) → find blake3_hash blocks (value (new remaining)) remaining ≡ some bi
        → encode_tail blake3_hash blocks block new_bytes ops lit_start ≡ ops ++ (copy bi ∷ [])
    tail_matched h bi e = tail_cases h (some bi) e

    pub tail_missed :
        lit_start < length new_bytes
        → find blake3_hash blocks (value (new remaining)) remaining ≡ none
        → encode_tail blake3_hash blocks block new_bytes ops lit_start
          ≡ ops ++ (literal remaining ∷ [])
    tail_missed h e = tail_cases h none e
