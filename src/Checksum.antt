-- ===== src/Checksum.antt =====
-- crates/ripsync-core/src/checksum.rs: the weak rolling checksum and the strong hash.
-- A `u32` is a number below 2 ^ 32 with its wrap written out. The BLAKE3 digest is a parameter.
mod Tests
pub mod Sums
pub mod Rolling
pub mod Value
use Prim.Native.Nat.{bit_and, bit_or}
use ripsync.Prelude.{ℕ, zero, suc, ◌+◌, ◌-◌, ◌*◌, ◌^◌, ◌%◌, List, [], ◌∷◌, length, take}
use ripsync.Prelude.Words.{u32_mod, u32_max, u32_or, wrapping_add, wrapping_sub, wrapping_mul}

-- `M`
abbrev pub m : ℕ
m = 2 ^ 16

-- `STRONG_LEN`
abbrev pub strong_len : ℕ
strong_len = 16

-- The first `strong_len` bytes of the digest.
unfoldable pub strong_hash : (List ℕ → List ℕ) → List ℕ → List ℕ
strong_hash blake3_hash bytes = take strong_len (blake3_hash bytes)

pub record RollingChecksum : Type 0 where
  pub a : ℕ
  pub b : ℕ
  pub window_len : ℕ

-- `sum_bytes` and `weighted` of a round.
sum_bytes : ℕ → ℕ → ℕ → ℕ → ℕ → ℕ → ℕ → ℕ → ℕ
sum_bytes b0 b1 b2 b3 b4 b5 b6 b7 =
    wrapping_add
      (wrapping_add
        (wrapping_add (wrapping_add (wrapping_add (wrapping_add (wrapping_add b0 b1) b2) b3) b4) b5)
        b6)
      b7

weighted : ℕ → ℕ → ℕ → ℕ → ℕ → ℕ → ℕ → ℕ
weighted b1 b2 b3 b4 b5 b6 b7 =
    wrapping_add
      (wrapping_add
        (wrapping_add
          (wrapping_add (wrapping_add (wrapping_add b1 (wrapping_mul b2 2)) (wrapping_mul b3 3))
            (wrapping_mul b4 4))
          (wrapping_mul b5 5))
        (wrapping_mul b6 6))
      (wrapping_mul b7 7)

-- One round of the unrolled loop over eight bytes, with the weight `w` of the first.
chunk_step : ℕ → ℕ → ℕ → ℕ → ℕ → ℕ → ℕ → ℕ → ℕ → ℕ → ℕ → ℕ × ℕ
chunk_step w b0 b1 b2 b3 b4 b5 b6 b7 a b =
    let total = sum_bytes b0 b1 b2 b3 b4 b5 b6 b7 in
    (
      wrapping_add a total,
      wrapping_add b (wrapping_sub (wrapping_mul w total) (weighted b1 b2 b3 b4 b5 b6 b7)),
    )

-- The loop over the 0 to 7 bytes left, the first at index `i`.
remainder_loop : ℕ → ℕ → List ℕ → ℕ → ℕ → ℕ × ℕ
remainder_loop window_len i [] a b = (a, b)
remainder_loop window_len i (byte ∷ rest) a b =
    let weight = wrapping_sub window_len (u32_or 0 i) in
    remainder_loop window_len (i + 1) rest (wrapping_add a byte)
      (wrapping_add b (wrapping_mul weight byte))

-- Both loops. The list is `window[base..]`.
chunk_loop : ℕ → ℕ → List ℕ → ℕ → ℕ → ℕ × ℕ
chunk_loop window_len base (b0 ∷ b1 ∷ b2 ∷ b3 ∷ b4 ∷ b5 ∷ b6 ∷ b7 ∷ rest) a b =
    let w = wrapping_sub window_len (base % u32_mod) in
    let s = chunk_step w b0 b1 b2 b3 b4 b5 b6 b7 a b in
    chunk_loop window_len (base + 8) rest s.0 s.1
chunk_loop window_len base rest a b = remainder_loop window_len base rest a b

-- `RollingChecksum::new`
unfoldable pub new : List ℕ → RollingChecksum
unfolding sum_bytes weighted chunk_step remainder_loop chunk_loop
new window =
    let window_len = u32_or u32_max (length window) in
    let s = chunk_loop window_len 0 window 0 0 in
    record { a = s.0; b = s.1; window_len = window_len }

unfoldable pub roll : RollingChecksum → ℕ → ℕ → RollingChecksum
roll rc out_byte in_byte =
    let a = wrapping_add (wrapping_sub rc.a out_byte) in_byte in
    record {
      a = a;
      b = wrapping_add (wrapping_sub rc.b (wrapping_mul rc.window_len out_byte)) a;
      window_len = rc.window_len;
    }

-- `x << 16` of a number below 2 ^ 16 loses no bit of a `u32`.
unfoldable pub value : RollingChecksum → ℕ
value rc = bit_or (bit_and rc.a (m - 1)) (bit_and rc.b (m - 1) * 2 ^ 16)

unfoldable pub window_len : RollingChecksum → ℕ
window_len rc = rc.window_len
