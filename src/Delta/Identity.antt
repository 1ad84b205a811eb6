-- ===== src/Delta/Identity.antt =====
-- delta.rs: an unchanged file is encoded as copies alone.
use ripsync.Prelude.{
  ℕ, zero, suc, ◌+◌, ◌-◌, ◌*◌, ◌≤◌, ◌<◌, ◌≡◌, refl, ap, sym, ◌∙◌, arith, true, false, Option, some,
  List, [], ◌∷◌, ◌++◌, length, length-map, take, drop, slice, is_empty, leb, ltb, inl, inr,
  Bool-cases, leb→le, leb_false→lt, if◌then◌else◌, take_cong, drop_cong, take_of_le, length-drop,
}
use mathlib.Core.Path.{subst}
use native.Mathlib.Decide.{dec_lt, dec_le}
use ripsync.Prelude.Words.{u32_mod}
use ripsync.Checksum.{new, value}
use ripsync.Delta.{
  Delta, Op, copy, literal, literals, literal_bytes, BlockSig, Signature, chunks, block_sig, find,
  encode_tail, encode_blocks, encode,
}
use ripsync.Delta.Blocks.{block_at, blocks_of, get_elem?-blocks_of}
use ripsync.Delta.Table.{find_total}
use ripsync.Delta.Steps.{
  matched, fresh, loop, loop_jump, loop_done, remaining, tail_empty, tail_matched,
}
use ripsync.Delta.Codec.{
  chosen, block_choice_pos, encode-blocks_of, encode_fuel_empty, encode_fuel_blocks,
}

length-chunks :
    (fuel block : ℕ) (old : List ℕ) → 1 ≤ block → length (chunks fuel block old) ≤ length old
unfolding chunks
length-chunks fuel block [] h = omega arith
length-chunks zero block (x ∷ xs) h = omega arith
length-chunks (suc fuel) block (x ∷ xs) h =
    omega (arith, length-chunks fuel block (drop block (x ∷ xs)) h, length-drop block (x ∷ xs))

literals_snoc : (ops : List Op) (bi : ℕ) → literals (ops ++ (copy bi ∷ [])) ≡ literals ops
literals_snoc [] bi = refl
literals_snoc (copy _ ∷ ops) bi = literals_snoc ops bi
literals_snoc (literal bytes ∷ ops) bi = ap (λ t. length bytes + t) (literals_snoc ops bi)

module _ (blake3_hash : List ℕ → List ℕ) (block : ℕ) (old : List ℕ) (positive : 1 ≤ block)
    (short : length old < u32_mod) where
  abbrev blocks : List BlockSig
  blocks = blocks_of blake3_hash block old positive short

  -- Every block of the file is found under its own checksum.
  find_own_block :
      (i : ℕ) (window : List ℕ)
      → i * block < length old
      → window ≡ block_at block old i
      → (bi : ℕ) × (find blake3_hash blocks (value (new window)) window ≡ some bi)
  find_own_block i window inside e =
      let (sig, at, (weak, strong, len)) =
        get_elem?-blocks_of blake3_hash block old positive short i inside in
      let small : length blocks ≤ u32_mod = omega (
        arith,
        length-map (chunks (length old) block old) (block_sig blake3_hash),
        length-chunks (length old) block old positive,
      ) in
      subst (λ w. (bi : ℕ) × (find blake3_hash blocks (value (new w)) w ≡ some bi)) (sym e)
        (find_total blake3_hash blocks (block_at block old i) (value (new (block_at block old i))) i
          small at weak (sig, at, len, strong))

  matched_at_start :
      (ops : List Op) (pos bi : ℕ)
      → literals ops ≡ 0
      → literals (matched blake3_hash blocks block old ops pos pos bi) ≡ 0
  matched_at_start ops pos bi h =
      let idle : ltb pos pos ≡ false = ground arith in rw idle (literals_snoc ops bi ∙ h)

  -- The loop stops at a block boundary less than a block before the end.
  abbrev Stops : Option (List Op × ℕ) → Type 0
  Stops r =
      (ops : List Op) × (i : ℕ) × (r ≡ some (ops, i * block))
      × (literals ops ≡ 0)
      × (length old < i * block + block)

  loop_identity :
      (fuel pos i : ℕ) (ops : List Op)
      → length old < pos + fuel
      → pos ≡ i * block
      → pos + block ≤ length old
      → literals ops ≡ 0
      → Stops (
          loop blake3_hash blocks block old fuel pos pos
            (fresh blake3_hash blocks block old pos)
            ops)
  loop_identity zero pos i ops hf hi hp h = absurd (omega arith)
  loop_identity (suc fuel) pos i ops hf hi hp h =
      let window : slice pos (pos + block) old ≡ block_at block old i =
        take_cong (drop pos old) {n = block} (omega arith) ∙ ap (take block) (drop_cong old hi) in
      let (bi, e) = find_own_block i (slice pos (pos + block) old) (omega arith) window in
      let rc = fresh blake3_hash blocks block old pos in
      let next : pos + block ≡ suc i * block = omega arith in
      let clean = matched_at_start ops pos bi h in
      elim (dec_le (pos + block + block) (length old)) [
        | yes more ↦
            subst Stops (sym (loop_jump blake3_hash blocks block old fuel pos pos rc ops bi e more))
              (loop_identity fuel (pos + block) (suc i) _ (omega arith) next more clean)
        | no last ↦ (
          matched blake3_hash blocks block old ops pos pos bi,
          suc i,
          loop_done blake3_hash blocks block old fuel pos pos rc ops bi e (omega arith)
              ∙ ap (λ (t : ℕ). some (matched blake3_hash blocks block old ops pos pos bi, t)) next,
          clean,
          omega arith,
        )
      ]

  tail_identity :
      (ops : List Op) (i : ℕ)
      → literals ops ≡ 0
      → length old < i * block + block
      → literals (encode_tail blake3_hash blocks block old ops (i * block)) ≡ 0
  tail_identity ops i h hi = elim (dec_lt (i * block) (length old)) [
    | no empty ↦
        ap literals (tail_empty blake3_hash blocks block old ops (i * block) (omega arith)) ∙ h
    | yes more ↦
        let rest = drop (i * block) old in
        let window : remaining blake3_hash blocks block old ops (i * block) ≡ block_at block old i =
          take_of_le (length old - i * block) rest (omega (arith, length-drop (i * block) old))
          ∙ sym (take_of_le block rest (omega (arith, length-drop (i * block) old))) in
        let (bi, e) = find_own_block i _ more window in
        ap literals (tail_matched blake3_hash blocks block old ops (i * block) more bi e)
        ∙ literals_snoc ops bi
        ∙ h
  ]

  encode_blocks_identity :
      (ops : List Op) × (encode_blocks blake3_hash blocks block old (length old + 1) ≡ some ops)
      × (literals ops ≡ 0)
  unfolding encode_blocks
  encode_blocks_identity = elim (Bool-cases (leb block (length old))) [
    | inr small ↦ (
      encode_tail blake3_hash blocks block old [] 0,
      rw small,
      subst (λ (p : ℕ). literals (encode_tail blake3_hash blocks block old [] p) ≡ 0)
          {x = 0 * block} (omega arith)
          (tail_identity [] 0 refl (omega (arith, leb_false→lt block (length old) small))),
    )
    | inl large ↦
        let (ops, i, e, h, hi) =
          loop_identity (length old + 1) 0 0 [] (omega arith) (omega arith)
            (omega (arith, leb→le block (length old) large)) refl in
        let start : slice 0 (0 + block) old ≡ slice 0 block old =
          take_cong old {m = 0 + block - 0} {n = block - 0} (omega arith) in
        (
          encode_tail blake3_hash blocks block old ops (i * block),
          rw large (rw (sym start) (rw e)),
          tail_identity ops i h hi,
        )
  ]

-- Only an empty file has an empty signature.
empty_signature :
    (blake3_hash : List ℕ → List ℕ) (block : ℕ) (old : List ℕ) (positive : 1 ≤ block)
    (short : length old < u32_mod)
    → is_empty (blocks_of blake3_hash block old positive short) ≡ true
    → literals (if is_empty old then [] else literal old ∷ []) ≡ 0
unfolding chunks
empty_signature blake3_hash block [] positive short e = refl
empty_signature blake3_hash block (x ∷ xs) positive short e = cc

-- Encoding a file against itself returns a delta that carries no literal byte, for every hash,
-- square root and override, where the length and the block size fit in 32 bits.
pub literal_bytes-encode_self :
    (blake3_hash : List ℕ → List ℕ) (sqrt_round : ℕ → ℕ) (old : List ℕ) (block_override : Option ℕ)
    → length old < u32_mod
    → chosen blake3_hash sqrt_round old old block_override < u32_mod
    → (d : Delta) × (encode blake3_hash sqrt_round old old block_override ≡ some d)
      × (literal_bytes d ≡ 0)
unfolding literal_bytes
literal_bytes-encode_self blake3_hash sqrt_round old block_override short fits =
    let block = chosen blake3_hash sqrt_round old old block_override in
    let positive = block_choice_pos blake3_hash sqrt_round (length old) block_override in
    let start =
      encode-blocks_of blake3_hash sqrt_round old old block_override positive short fits in
    let sig : Signature = record {
      block_size = block;
      blocks = blocks_of blake3_hash block old positive short;
    } in
    elim (Bool-cases (is_empty sig.blocks)) [
      | inl e ↦ (
        _,
        start ∙ encode_fuel_empty blake3_hash (length old + 1) sig old e,
        empty_signature blake3_hash block old positive short e,
      )
      | inr e ↦
          let (ops, r, clean) = encode_blocks_identity blake3_hash block old positive short in
          (
            record { block_size = block; ops = ops },
            start ∙ encode_fuel_blocks blake3_hash (length old + 1) sig old e r,
            clean,
          )
    ]
