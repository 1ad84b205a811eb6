-- ===== src/Delta/RoundTrip.antt =====
-- delta.rs: `apply(old, encode(old, new, _)) == new`.
use ripsync.Prelude.{
  ℕ, zero, suc, ◌+◌, ◌*◌, ◌≤◌, ◌<◌, ◌≡◌, inl, inr, refl, ap, sym, ◌∙◌, arith, Option, some, List,
  [], ◌∷◌, ◌++◌, length, take, slice, leb→le, ltb, leb, Bool-cases, Option-cases, Result-cases, ok,
  err, ◌>>=◌, take-append-slice, take_of_le,
}
use native.Mathlib.Decide.{dec_lt, dec_le}
use mathlib.Core.Path.{subst}
use ripsync.Prelude.Words.{u32_mod}
use ripsync.Checksum.{RollingChecksum, strong_hash, new, value}
use ripsync.Errors.{Error}
use ripsync.Delta.{
  Op, copy, literal, BlockSig, find, encode_loop, encode_tail, encode_blocks, flush, apply_op,
  apply_ops,
}
use ripsync.Delta.Blocks.{block_at, apply_op-copy, blocks_of, blocks_of-Describes}
use ripsync.Delta.Find.{find-Confirmed}
use ripsync.Delta.Steps.{
  matched, found_here, loop_slide, loop_stop, loop_jump, loop_done, remaining, tail_empty,
  tail_matched, tail_missed,
}

pub apply_ops_step :
    (old : List ℕ) (block : ℕ) (op : Op) (ops : List Op) (out : List ℕ) {out' : List ℕ}
    → apply_op old block out op ≡ ok out'
    → apply_ops old block (op ∷ ops) out ≡ apply_ops old block ops out'
unfolding apply_ops
apply_ops_step old block op ops out e = ap (λ r. r >>= apply_ops old block ops) e

apply_ops_failed :
    (old : List ℕ) (block : ℕ) (op : Op) (ops : List Op) (out : List ℕ) {x : Error}
    → apply_op old block out op ≡ err x
    → apply_ops old block (op ∷ ops) out ≡ err x
unfolding apply_ops
apply_ops_failed old block op ops out e = ap (λ r. r >>= apply_ops old block ops) e

-- Applying one more operation, to what the operations before it wrote.
pub apply_ops_snoc :
    (old : List ℕ) (block : ℕ) (ops : List Op) (op : Op) (out : List ℕ) {mid end : List ℕ}
    → apply_ops old block ops out ≡ ok mid
    → apply_op old block mid op ≡ ok end
    → apply_ops old block (ops ++ (op ∷ [])) out ≡ ok end
apply_ops_snoc old block [] op out {mid} h e =
    let same : out ≡ mid = unfold apply_ops in cc (h) in
    apply_ops_step old block op [] out (ap (λ t. apply_op old block t op) same ∙ e)
    ∙ unfold apply_ops in refl
apply_ops_snoc old block (first ∷ ops) op out h e =
    elim (Result-cases (apply_op old block out first)) [
      | inl (out', done) ↦
          apply_ops_step old block first (ops ++ (op ∷ [])) out done
          ∙ apply_ops_snoc old block ops op out'
              (sym (apply_ops_step old block first ops out done) ∙ h) e
      | inr (x, failed) ↦ cc (h, apply_ops_failed old block first ops out failed)
    ]

-- The strong hash tells the windows of `new` from the blocks of `old` that have their length.
abbrev pub NoCollision : (List ℕ → List ℕ) → ℕ → List ℕ → List ℕ → Type 0
NoCollision blake3_hash block old new_bytes =
    (i from to : ℕ)
    → i * block < length old
    → to ≤ length new_bytes
    → length (slice from to new_bytes) ≡ length (block_at block old i)
    → strong_hash blake3_hash (slice from to new_bytes)
      ≡ strong_hash blake3_hash (block_at block old i)
    → slice from to new_bytes ≡ block_at block old i

module _ (blake3_hash : List ℕ → List ℕ) (block : ℕ) (old new_bytes : List ℕ) (positive : 1 ≤ block)
    (short : length old < u32_mod) (distinct : NoCollision blake3_hash block old new_bytes) where
  abbrev blocks : List BlockSig
  blocks = blocks_of blake3_hash block old positive short

  -- What `find` returns for a slice of `new` is a block of `old` with the same bytes.
  find-block_at :
      (weak from to : ℕ) {bi : ℕ}
      → to ≤ length new_bytes
      → find blake3_hash blocks weak (slice from to new_bytes) ≡ some bi
      → (bi * block < length old) × (slice from to new_bytes ≡ block_at block old bi)
  find-block_at weak from to {bi} hto h =
      let (sig, at, len, strong) =
        find-Confirmed blake3_hash blocks (slice from to new_bytes) weak h in
      let (inside, (_, strong', len')) =
        blocks_of-Describes blake3_hash block old positive short bi at in
      (inside, distinct bi from to inside hto (sym len ∙ len') (sym strong ∙ strong'))

  -- The operations so far rebuild the first `n` bytes of `new`.
  abbrev Rebuilds : List Op → ℕ → Type 0
  Rebuilds ops n = apply_ops old block ops [] ≡ ok (take n new_bytes)

  Rebuilds-literal :
      (ops : List Op) (from to : ℕ)
      → from ≤ to
      → Rebuilds ops from
      → Rebuilds (ops ++ (literal (slice from to new_bytes) ∷ [])) to
  Rebuilds-literal ops from to h r =
      apply_ops_snoc old block ops (literal (slice from to new_bytes)) [] r
        (unfold apply_op in ap ok (take-append-slice from to new_bytes h))

  Rebuilds-copy :
      (ops : List Op) (weak from to : ℕ) {bi : ℕ}
      → from ≤ to
      → to ≤ length new_bytes
      → find blake3_hash blocks weak (slice from to new_bytes) ≡ some bi
      → Rebuilds ops from
      → Rebuilds (ops ++ (copy bi ∷ [])) to
  Rebuilds-copy ops weak from to {bi} h hto found r =
      let (inside, same) = find-block_at weak from to hto found in
      apply_ops_snoc old block ops (copy bi) [] r (
        apply_op-copy block positive old (take from new_bytes) bi inside (omega arith)
        ∙ ap ok
            (ap (◌++◌ (take from new_bytes)) (sym same) ∙ take-append-slice from to new_bytes h))

  Rebuilds-flush :
      (ops : List Op) (from to : ℕ)
      → from ≤ to
      → Rebuilds ops from
      → Rebuilds (flush blake3_hash blocks block new_bytes ops from to) to
  Rebuilds-flush ops from to h r = elim (Bool-cases (ltb from to)) [
    | inl t ↦ rw t (Rebuilds-literal ops from to h r)
    | inr f ↦ let same : from ≡ to = ground arith in rw f (r ∙ ap (λ n. ok (take n new_bytes)) same)
  ]

  -- The loop ends within its fuel, and what it returns rebuilds `new` up to `lit_start`.
  abbrev Ends : Option (List Op × ℕ) → Type 0
  Ends r = (ops : List Op) × (n : ℕ) × (r ≡ some (ops, n)) × (n ≤ length new_bytes) × Rebuilds ops n

  Rebuilds-matched :
      (ops : List Op) (weak pos lit_start : ℕ) {bi : ℕ}
      → pos + block ≤ length new_bytes
      → lit_start ≤ pos
      → find blake3_hash blocks weak (slice pos (pos + block) new_bytes) ≡ some bi
      → Rebuilds ops lit_start
      → Rebuilds (matched blake3_hash blocks block new_bytes ops lit_start pos bi) (pos + block)
  Rebuilds-matched ops weak pos lit_start hp hl found r =
      Rebuilds-copy (flush blake3_hash blocks block new_bytes ops lit_start pos) weak pos
        (pos + block) (omega arith) hp found (Rebuilds-flush ops lit_start pos hl r)

  encode_loop-Ends :
      (fuel pos lit_start : ℕ) (rc : RollingChecksum) (ops : List Op)
      → length new_bytes < pos + fuel
      → pos + block ≤ length new_bytes
      → lit_start ≤ pos
      → Rebuilds ops lit_start
      → Ends (encode_loop blake3_hash blocks block new_bytes fuel pos lit_start rc ops)
  encode_loop-Ends zero pos lit_start rc ops hf hp hl r = absurd (omega arith)
  encode_loop-Ends (suc fuel) pos lit_start rc ops hf hp hl r =
      elim (Option-cases
        (found_here blake3_hash blocks block new_bytes fuel pos lit_start rc ops)) [
          | inl e ↦ elim (dec_lt (pos + block) (length new_bytes)) [
            | yes more ↦
                subst Ends
                  (sym (
                    loop_slide blake3_hash blocks block new_bytes fuel pos lit_start rc ops e more))
                  (encode_loop-Ends fuel (pos + 1) lit_start _ ops (omega arith) (omega arith)
                    (omega arith) r)
            | no last ↦ (
              ops,
              lit_start,
              loop_stop blake3_hash blocks block new_bytes fuel pos lit_start rc ops e
                  (omega arith),
              omega arith,
              r,
            )
          ]
          | inr (bi, e) ↦
              let done = Rebuilds-matched ops (value rc) pos lit_start hp hl e r in
              elim (dec_le (pos + block + block) (length new_bytes)) [
                | yes more ↦
                    subst Ends
                      (sym (
                        loop_jump blake3_hash blocks block new_bytes fuel pos lit_start rc ops bi e
                          more))
                      (encode_loop-Ends fuel (pos + block) (pos + block) _ _ (omega arith) more
                        (omega arith) done)
                | no last ↦ (
                  matched blake3_hash blocks block new_bytes ops lit_start pos bi,
                  pos + block,
                  loop_done blake3_hash blocks block new_bytes fuel pos lit_start rc ops bi e
                      (omega arith),
                  hp,
                  done,
                )
              ]
        ]

  -- The last operation completes `new`.
  encode_tail-Rebuilds :
      (ops : List Op) (lit_start : ℕ)
      → lit_start ≤ length new_bytes
      → Rebuilds ops lit_start
      → apply_ops old block (encode_tail blake3_hash blocks block new_bytes ops lit_start) []
        ≡ ok new_bytes
  encode_tail-Rebuilds ops lit_start h r = elim (dec_lt lit_start (length new_bytes)) [
    | no empty ↦
        ap (λ o. apply_ops old block o [])
          (tail_empty blake3_hash blocks block new_bytes ops lit_start (omega arith))
        ∙ r
        ∙ ap ok (take_of_le lit_start new_bytes (omega arith))
    | yes more ↦
        let rest = remaining blake3_hash blocks block new_bytes ops lit_start in
        elim (Option-cases (find blake3_hash blocks (value (new rest)) rest)) [
          | inl e ↦
              ap (λ o. apply_ops old block o [])
                (tail_missed blake3_hash blocks block new_bytes ops lit_start more e)
              ∙ Rebuilds-literal ops lit_start (length new_bytes) h r
              ∙ ap ok (take_of_le (length new_bytes) new_bytes (omega arith))
          | inr (bi, e) ↦
              ap (λ o. apply_ops old block o [])
                (tail_matched blake3_hash blocks block new_bytes ops lit_start more bi e)
              ∙ Rebuilds-copy ops (value (new rest)) lit_start (length new_bytes) h (omega arith) e
                  r
              ∙ ap ok (take_of_le (length new_bytes) new_bytes (omega arith))
        ]
  ]

  -- Both ways through `encode_blocks`.
  pub encode_blocks-Rebuilds :
      (ops : List Op) × (encode_blocks blake3_hash blocks block new_bytes (length new_bytes + 1)
        ≡ some ops)
      × (apply_ops old block ops [] ≡ ok new_bytes)
  unfolding encode_blocks
  encode_blocks-Rebuilds = elim (Bool-cases (leb block (length new_bytes))) [
    | inr small ↦ (
      encode_tail blake3_hash blocks block new_bytes [] 0,
      rw small,
      encode_tail-Rebuilds [] 0 (omega arith) (unfold apply_ops in refl),
    )
    | inl large ↦
        let (ops, n, e, hn, r) =
          encode_loop-Ends (length new_bytes + 1) 0 0 (new (slice 0 block new_bytes)) []
            (omega arith) (omega (arith, leb→le block (length new_bytes) large)) (omega arith)
            (unfold apply_ops in refl) in
        (
          encode_tail blake3_hash blocks block new_bytes ops n,
          rw large (rw e),
          encode_tail-Rebuilds ops n hn r,
        )
  ]
