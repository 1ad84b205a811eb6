-- ===== src/Index.antt =====
-- crates/ripsync-core/src/index.rs: the persistent manifest and its journal.
-- `bincode`, BLAKE3 and the live file system are parameters.
mod Tests
pub mod Journal
pub mod Classify
pub mod Snapshot
use ripsync.Prelude.{ℕ, ◌*◌, Option, List}
use ripsync.Prelude.Int.{ℤ}
use ripsync.Paths.{RelPath}

-- `FORMAT_VERSION` and `COMPACT_BYTES`
abbrev pub format_version : ℕ
format_version = 3

abbrev pub compact_bytes : ℕ
compact_bytes = 64 * 1024 * 1024

pub data Kind : Type 0 where
  file dir symlink : Kind

pub record ManifestEntry : Type 0 where
  pub kind : Kind
  pub size : ℕ
  pub mtime_s : ℤ
  pub mtime_ns : ℕ
  pub ino : ℕ
  pub dev : ℕ
  pub mode : ℕ
  pub hash : Option (List ℕ)
  pub target : Option (List ℕ)

pub record Manifest : Type 0 where
  pub version : ℕ
  pub entries : List (RelPath × ManifestEntry)

-- `Delta`
pub data Change : Type 0 where
  upsert : RelPath → ManifestEntry → Change
  delete : RelPath → Change
