-- ===== src/Delta.antt =====
-- crates/ripsync-core/src/delta.rs: signatures, the encoder and the decoder.
-- The BLAKE3 digest and the rounded square root of an `f64` are parameters.
mod Tests
pub mod Blocks
pub mod Find
pub mod Table
pub mod Steps
pub mod RoundTrip
pub mod Codec
pub mod Identity
pub mod Termination
use ripsync.Prelude.{
  ℕ, zero, suc, ◌+◌, ◌-◌, ◌*◌, ◌%◌, ◌^◌, min, max, Bool, true, false, not, ◌&&◌, Option, none, some,
  List, [], ◌∷◌, ◌++◌, map, ltb, leb, ◌==◌, if◌then◌else◌, list_eq, length, take, drop, get_elem?,
  slice, is_empty, ok, err, ◌>>=◌,
}
use ripsync.Prelude.Words.{u32_mod, u32_max, u64_mod, u32_or}
use ripsync.Checksum.{RollingChecksum, strong_hash, new, roll, value}
use ripsync.Errors.{Error, Outcome, delta_apply}

-- `MIN_BLOCK` and `MAX_BLOCK`
abbrev pub min_block : ℕ
min_block = 700

abbrev pub max_block : ℕ
max_block = 131_072

pub data Op : Type 0 where
  copy : ℕ → Op
  literal : List ℕ → Op

pub record Delta : Type 0 where
  pub block_size : ℕ
  pub ops : List Op

-- The bytes that the literals of a list of operations carry.
abbrev pub literals : List Op → ℕ
literals [] = 0
literals (copy _ ∷ ops) = literals ops
literals (literal bytes ∷ ops) = length bytes + literals ops

unfoldable pub literal_bytes : Delta → ℕ
literal_bytes d = literals d.ops

abbrev copies : List Op → ℕ
copies [] = 0
copies (copy _ ∷ ops) = suc (copies ops)
copies (literal _ ∷ ops) = copies ops

unfoldable pub copy_ops : Delta → ℕ
copy_ops d = copies d.ops

unfoldable pub block_size_for : (ℕ → ℕ) → ℕ → ℕ
block_size_for sqrt_round old_len = min (max (sqrt_round old_len) min_block) max_block

pub record BlockSig : Type 0 where
  pub weak : ℕ
  pub strong : List ℕ
  pub len : ℕ

pub record Signature : Type 0 where
  pub block_size : ℕ
  pub blocks : List BlockSig

-- `old.par_chunks(block)`: at most `length old` chunks, so that is fuel enough.
unfoldable pub chunks : ℕ → ℕ → List ℕ → List (List ℕ)
chunks fuel block [] = []
chunks zero block (x ∷ xs) = []
chunks (suc fuel) block (x ∷ xs) = take block (x ∷ xs) ∷ chunks fuel block (drop block (x ∷ xs))

-- `Lookup::by_weak`: `entry(weak).or_default().push(idx)`, and the loop of `Lookup::new`.
unfoldable pub push_entry : ℕ → ℕ → List (ℕ × List ℕ) → List (ℕ × List ℕ)
push_entry weak idx [] = (weak, idx ∷ []) ∷ []
push_entry weak idx ((w, found) ∷ rest) =
    if w == weak then (w, found ++ (idx ∷ [])) ∷ rest else (w, found) ∷ push_entry weak idx rest

unfoldable pub lookup_from : ℕ → List BlockSig → List (ℕ × List ℕ) → List (ℕ × List ℕ)
lookup_from i [] by_weak = by_weak
lookup_from i (block ∷ blocks) by_weak =
    lookup_from (i + 1) blocks (push_entry block.weak (u32_or u32_max i) by_weak)

-- `by_weak.get(&weak)`
unfoldable pub get_weak : ℕ → List (ℕ × List ℕ) → Option (List ℕ)
get_weak weak [] = none
get_weak weak ((w, found) ∷ rest) = if w == weak then some found else get_weak weak rest

module _ (blake3_hash : List ℕ → List ℕ) where
  unfoldable pub block_sig : List ℕ → BlockSig
  block_sig chunk = record {
    weak = value (new chunk);
    strong = strong_hash blake3_hash chunk;
    len = u32_or u32_max (length chunk);
  }

  abbrev pub block_choice : (ℕ → ℕ) → ℕ → Option ℕ → ℕ
  block_choice sqrt_round old_len none = block_size_for sqrt_round old_len
  block_choice sqrt_round old_len (some b) = max b 1

  -- `Signature::compute`
  unfoldable pub compute : (ℕ → ℕ) → List ℕ → Option ℕ → Signature
  unfolding block_sig chunks block_size_for
  compute sqrt_round old block_override =
      let block = block_choice sqrt_round (length old) block_override in
      record {
        block_size = u32_or u32_max block;
        blocks = map block_sig (chunks (length old) block old);
      }

  -- The loop of `Lookup::find`. An index out of range would panic; `candidates` has none.
  unfoldable pub find_in : List BlockSig → List ℕ → List ℕ → Option ℕ
  find_in blocks window [] = none
  find_in blocks window (bi ∷ candidates) =
      let rest = find_in blocks window candidates in
      elim (get_elem? blocks bi) [
        | none ↦ none
        | some block ↦
            if block.len == length window
            then (if list_eq block.strong (strong_hash blake3_hash window) then some bi else rest)
            else rest
      ]

  -- `Lookup::find` over the table of `Lookup::new`.
  unfoldable pub find : List BlockSig → ℕ → List ℕ → Option ℕ
  unfolding find_in push_entry lookup_from get_weak
  find blocks weak window = elim (get_weak weak (lookup_from 0 blocks [])) [
    | none ↦ none
    | some candidates ↦ find_in blocks window candidates
  ]

  module _ (blocks : List BlockSig) (block : ℕ) (new_bytes : List ℕ) where
    -- The closure `flush`.
    abbrev pub flush : List Op → ℕ → ℕ → List Op
    flush ops from to = if ltb from to then ops ++ (literal (slice from to new_bytes) ∷ []) else ops

    -- `new[i]`; the loop's guard keeps the index in range.
    abbrev pub byte_at : ℕ → ℕ
    byte_at i = elim (get_elem? new_bytes i) [ none ↦ 0 | some x ↦ x ]

    -- The `loop`, on fuel: `none` means that the fuel ran out. The result is `ops` and `lit_start`.
    unfoldable pub encode_loop : ℕ → ℕ → ℕ → RollingChecksum → List Op → Option (List Op × ℕ)
    encode_loop zero pos lit_start rc ops = none
    encode_loop (suc fuel) pos lit_start rc ops =
        elim (find blocks (value rc) (slice pos (pos + block) new_bytes)) [
          | some bi ↦
              let ops' = flush ops lit_start pos ++ (copy bi ∷ []) in
              let pos' = pos + block in
              let rest =
                encode_loop fuel pos' pos' (new (slice pos' (pos' + block) new_bytes)) ops' in
              if leb (pos' + block) (length new_bytes) then rest else some (ops', pos')
          | none ↦
              let rest =
                encode_loop fuel (pos + 1) lit_start (roll rc (byte_at pos) (byte_at (pos + block)))
                  ops in
              if ltb (pos + block) (length new_bytes) then rest else some (ops, lit_start)
        ]

    -- What follows the loop: the bytes behind `lit_start` become one last operation.
    unfoldable pub encode_tail : List Op → ℕ → List Op
    encode_tail ops lit_start =
        let remaining = slice lit_start (length new_bytes) new_bytes in
        if is_empty remaining then ops else elim (find blocks (value (new remaining)) remaining) [
          | some bi ↦ ops ++ (copy bi ∷ [])
          | none ↦ ops ++ (literal remaining ∷ [])
        ]

    -- The body behind the test for an empty signature.
    unfoldable pub encode_blocks : ℕ → Option (List Op)
    unfolding encode_loop encode_tail
    encode_blocks fuel =
        if leb block (length new_bytes)
        then elim (encode_loop fuel 0 0 (new (slice 0 block new_bytes)) []) [
          | none ↦ none
          | some (ops, lit_start) ↦ some (encode_tail ops lit_start)
        ]
        else some (encode_tail [] 0)

  -- `encode_with_signature`, on fuel.
  unfoldable pub encode_fuel : ℕ → Signature → List ℕ → Option Delta
  unfolding encode_blocks
  encode_fuel fuel sig new_bytes =
      if is_empty sig.blocks
      then some (record {
        block_size = sig.block_size;
        ops = if is_empty new_bytes then [] else literal new_bytes ∷ [];
      })
      else elim (encode_blocks sig.blocks sig.block_size new_bytes fuel) [
        | none ↦ none
        | some ops ↦ some (record { block_size = sig.block_size; ops = ops })
      ]

  -- One round for each place of the window is enough where the block size is not 0.
  unfoldable pub encode_with_signature : Signature → List ℕ → Option Delta
  unfolding encode_fuel
  encode_with_signature sig new_bytes = encode_fuel (length new_bytes + 1) sig new_bytes

  unfoldable pub encode : (ℕ → ℕ) → List ℕ → List ℕ → Option ℕ → Option Delta
  unfolding encode_with_signature compute
  encode sqrt_round old new_bytes block_override =
      encode_with_signature (compute sqrt_round old block_override) new_bytes

-- One round of `apply`; the product is that of a 64-bit `usize`.
unfoldable pub apply_op : List ℕ → ℕ → List ℕ → Op → Outcome (List ℕ)
apply_op old block out (literal bytes) = ok (out ++ bytes)
apply_op old block out (copy bi) =
    let start = bi * block in
    if leb u64_mod start
    then err delta_apply
    else (if leb (length old) start && not (start == 0 && is_empty old)
        then err delta_apply
        else ok (out ++ slice start (min (start + block) (length old)) old))

unfoldable pub apply_ops : List ℕ → ℕ → List Op → List ℕ → Outcome (List ℕ)
unfolding apply_op
apply_ops old block [] out = ok out
apply_ops old block (op ∷ ops) out = do
  out' ← apply_op old block out op
  apply_ops old block ops out'

unfoldable pub apply : List ℕ → Delta → Outcome (List ℕ)
unfolding apply_ops
apply old d = apply_ops old d.block_size d.ops []
