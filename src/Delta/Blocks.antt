-- ===== src/Delta/Blocks.antt =====
-- delta.rs: the blocks of `old`, as `Signature::compute` cuts them and `apply` copies them.
use ripsync.Prelude.{
  ℕ, zero, suc, ◌+◌, ◌-◌, ◌*◌, ◌≤◌, ◌<◌, ◌≡◌, refl, sym, ap, ◌∙◌, arith, some, List, [], ◌∷◌, ◌++◌,
  map, length, take, drop, get_elem?, slice, min, ok, length-drop, length-take, drop-drop,
  drop_cong, take_cong, take-min-length, get_elem?-map, get_elem?-map_inverse,
}
use mathlib.Core.Path.{subst}
use ripsync.Prelude.Words.{u32_mod, u64_mod}
use ripsync.Checksum.{new, value, strong_hash}
use ripsync.Delta.{BlockSig, copy, chunks, block_sig, apply_op}

-- Block `i` of `old` at block size `block`.
abbrev pub block_at : ℕ → List ℕ → ℕ → List ℕ
block_at block old i = take block (drop (i * block) old)

block_at-zero : (block : ℕ) (old : List ℕ) → block_at block old 0 ≡ take block old
block_at-zero block old = ap (take block) (drop_cong old {m = 0 * block} {n = 0} (omega arith))

block_at-suc :
    (block : ℕ) (old : List ℕ) (i : ℕ)
    → block_at block (drop block old) i ≡ block_at block old (suc i)
block_at-suc block old i =
    ap (take block)
      (drop-drop (i * block) block old ∙ drop_cong old {n = suc i * block} (omega arith))

pub length-block_at :
    (block : ℕ) (old : List ℕ) (i : ℕ)
    → length (block_at block old i) ≡ min block (length old - i * block)
length-block_at block old i =
    omega (arith, length-take block (drop (i * block) old), length-drop (i * block) old)

module _ (block : ℕ) (positive : 1 ≤ block) where
  -- Every chunk is a block, and starts inside the buffer.
  pub chunks-block_at :
      (fuel : ℕ) (old : List ℕ) (i : ℕ) {c : List ℕ}
      → get_elem? (chunks fuel block old) i ≡ some c
      → (c ≡ block_at block old i) × (i * block < length old)
  unfolding chunks
  chunks-block_at fuel [] i h = cc
  chunks-block_at zero (x ∷ xs) i h = cc
  chunks-block_at (suc fuel) (x ∷ xs) zero h = rw (block_at-zero block (x ∷ xs)) (cc, omega arith)
  chunks-block_at (suc fuel) (x ∷ xs) (suc i) h =
      let (e, lt) = chunks-block_at fuel (drop block (x ∷ xs)) i h in
      (e ∙ block_at-suc block (x ∷ xs) i, omega (arith, lt, length-drop block (x ∷ xs)))

  -- Every block that starts inside the buffer is among the chunks.
  pub get_elem?-chunks :
      (fuel : ℕ) (old : List ℕ) (i : ℕ)
      → length old ≤ fuel
      → i * block < length old
      → get_elem? (chunks fuel block old) i ≡ some (block_at block old i)
  unfolding chunks
  get_elem?-chunks fuel [] i hf hi = absurd (omega arith)
  get_elem?-chunks zero (x ∷ xs) i hf hi = absurd (omega arith)
  get_elem?-chunks (suc fuel) (x ∷ xs) zero hf hi = ap some (sym (block_at-zero block (x ∷ xs)))
  get_elem?-chunks (suc fuel) (x ∷ xs) (suc i) hf hi =
      get_elem?-chunks fuel (drop block (x ∷ xs)) i (omega (arith, length-drop block (x ∷ xs)))
        (omega (arith, length-drop block (x ∷ xs)))
      ∙ ap some (block_at-suc block (x ∷ xs) i)

  slice-block_at :
      (old : List ℕ) (bi : ℕ)
      → slice (bi * block) (min (bi * block + block) (length old)) old ≡ block_at block old bi
  slice-block_at old bi =
      take_cong (drop (bi * block) old) {n = min block (length (drop (bi * block) old))}
        (omega (arith, length-drop (bi * block) old))
      ∙ take-min-length block (drop (bi * block) old)

  -- Copying a block that starts inside `old` appends exactly that block.
  pub apply_op-copy :
      (old out : List ℕ) (bi : ℕ)
      → bi * block < length old
      → length old < u64_mod
      → apply_op old block out (copy bi) ≡ ok (out ++ block_at block old bi)
  unfolding apply_op
  apply_op-copy old out bi h hlen = ground (arith, slice-block_at old bi)

-- A signature's entry describes block `bi` of `old`.
abbrev pub Describes : (List ℕ → List ℕ) → ℕ → List ℕ → BlockSig → ℕ → Type 0
Describes blake3_hash block old sig bi =
    (sig.weak ≡ value (new (block_at block old bi)))
    × (sig.strong ≡ strong_hash blake3_hash (block_at block old bi))
    × (sig.len ≡ length (block_at block old bi))

-- The signature of `old`: one entry for each block, with its length and both hashes.
module _ (blake3_hash : List ℕ → List ℕ) (block : ℕ) (old : List ℕ) (positive : 1 ≤ block)
    (short : length old < u32_mod) where
  abbrev pub blocks_of : List BlockSig
  blocks_of = map (block_sig blake3_hash) (chunks (length old) block old)

  block_sig-Describes :
      (bi : ℕ) → Describes blake3_hash block old (block_sig blake3_hash (block_at block old bi)) bi
  unfolding block_sig
  block_sig-Describes bi = (refl, refl, ground (arith, length-block_at block old bi))

  pub get_elem?-blocks_of :
      (bi : ℕ)
      → bi * block < length old
      → (sig : BlockSig) × (get_elem? blocks_of bi ≡ some sig)
        × Describes blake3_hash block old sig bi
  get_elem?-blocks_of bi inside = (
    block_sig blake3_hash (block_at block old bi),
    get_elem?-map (block_sig blake3_hash) (chunks (length old) block old) bi
        (get_elem?-chunks block positive (length old) old bi (omega arith) inside),
    block_sig-Describes bi,
  )

  pub blocks_of-Describes :
      (bi : ℕ) {sig : BlockSig}
      → get_elem? blocks_of bi ≡ some sig
      → (bi * block < length old) × Describes blake3_hash block old sig bi
  blocks_of-Describes bi {sig} h =
      let (chunk, there, cut) =
        get_elem?-map_inverse (block_sig blake3_hash) (chunks (length old) block old) bi h in
      let (same, inside) = chunks-block_at block positive (length old) old bi there in
      (
        inside,
        subst (λ t. Describes blake3_hash block old t bi)
            (sym (cut ∙ ap (block_sig blake3_hash) same)) (block_sig-Describes bi),
      )
