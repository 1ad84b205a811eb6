-- ===== src/Checksum/Value.antt =====
-- checksum.rs, `RollingChecksum::value`: the masks and the shift as the documented `a + b * M`.
use ripsync.Prelude.{ℕ, ◌+◌, ◌*◌, ◌%◌, ◌<◌, ◌≡◌, ap, ◌∙◌, arith, List, length}
use ripsync.Prelude.Words.{u32_mod}
use ripsync.Prelude.Bits.{bit_and_u16, bit_or_u16}
use ripsync.Checksum.{RollingChecksum, m, new, value}
use ripsync.Checksum.Sums.{sum, weighted_sum, checksum_of, new-checksum_of}

value_lem : (rc : RollingChecksum) → value rc ≡ rc.a % m + rc.b % m * m
unfolding value
value_lem rc =
    rw (bit_and_u16 rc.a, bit_and_u16 rc.b) (bit_or_u16 (rc.a % m) (rc.b % m) (omega arith))

-- The value read from the fresh checksum of a window shorter than 2 ^ 32 bytes is a + b * M for the documented sums modulo M = 2 ^ 16,
-- although the loops only reduce modulo 2 ^ 32.
pub value-new :
    (window : List ℕ)
    → length window < u32_mod
    → value (new window) ≡ sum window % m + weighted_sum window % m * m
value-new window h =
    ap value (new-checksum_of window h) ∙ value_lem (checksum_of window) ∙ omega arith
