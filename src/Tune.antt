-- ===== src/Tune.antt =====
-- crates/ripsync-core/src/tune.rs: the tier of a machine and the numbers that go with it. The floats
-- in which memory is measured are a parameter.
pub mod Limits
mod Tests
use ripsync.Prelude.{
  ℕ, ◌*◌, max, min, Bool, true, false, ◌&&◌, ◌||◌, Option, none, some, leb, if◌then◌else◌,
}
use ripsync.Prelude.Int.{ℤ, pos}

pub data Profile : Type 0 where
  low balanced high : Profile

pub record TuneParams : Type 0 where
  pub threads : ℕ
  pub copy_buffer : ℕ
  pub uring_queue_depth : ℕ
  pub zstd_level : ℤ

abbrev pub params_of : Profile → ℕ → TuneParams
params_of Profile.low cores = record {
  threads = min cores 2;
  copy_buffer = 256 * 1024;
  uring_queue_depth = 32;
  zstd_level = pos 1;
}
params_of Profile.balanced cores = record {
  threads = cores;
  copy_buffer = 1024 * 1024;
  uring_queue_depth = 128;
  zstd_level = pos 3;
}
params_of Profile.high cores = record {
  threads = cores;
  copy_buffer = 8 * 1024 * 1024;
  uring_queue_depth = 512;
  zstd_level = pos 6;
}

-- `Profile::params`
unfoldable pub params : Profile → ℕ → TuneParams
params profile cores = params_of profile (max cores 1)

-- What is used of `f64`: `<=`, and the literals `2.0` and `16.0`.
pub record Floats : Type 1 where
  pub F64 : Type 0
  pub le : F64 → F64 → Bool
  pub two : F64
  pub sixteen : F64

module _ (floats : Floats) where
  -- `ram_gib.is_some_and(|r| r <= 2.0)` and `ram_gib.is_none_or(|r| r >= 16.0)`
  abbrev pub is_small_ram : Option floats.F64 → Bool
  is_small_ram none = false
  is_small_ram (some r) = floats.le r floats.two

  abbrev pub is_large_ram : Option floats.F64 → Bool
  is_large_ram none = true
  is_large_ram (some r) = floats.le floats.sixteen r

  unfoldable pub resolve : ℕ → Option floats.F64 → Profile
  resolve cores ram =
      if leb cores 2 || is_small_ram ram
      then Profile.low
      else (if leb 8 cores && is_large_ram ram then Profile.high else Profile.balanced)
