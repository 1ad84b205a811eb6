-- ===== src/Prelude/Words.antt =====
-- Rust's fixed-width unsigned integers as numbers, with the wrap written out.
use Prim.Native.Nat.{ℕ, ◌+◌, ◌-◌, ◌*◌, ◌%◌, ◌^◌, ◌<◌}
use ripsync.Prelude.Tests.{ltb, if◌then◌else◌}

abbrev pub u32_mod : ℕ
u32_mod = 2 ^ 32

abbrev pub u32_max : ℕ
u32_max = 2 ^ 32 - 1

abbrev pub u64_mod : ℕ
u64_mod = 2 ^ 64

abbrev pub IsByte : ℕ → Type 0
IsByte b = b < 256

-- `u32::try_from(n).unwrap_or(d)`
abbrev pub u32_or : ℕ → ℕ → ℕ
u32_or d n = if ltb n u32_mod then n else d

abbrev pub wrapping_add : ℕ → ℕ → ℕ
wrapping_add a b = (a + b) % u32_mod

abbrev pub wrapping_sub : ℕ → ℕ → ℕ
wrapping_sub a b = (a + u32_mod - b) % u32_mod

abbrev pub wrapping_mul : ℕ → ℕ → ℕ
wrapping_mul a b = a * b % u32_mod
