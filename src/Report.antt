-- ===== src/Report.antt =====
-- crates/ripsync-core/src/report.rs: the tally of a run. Events and reporters are not modelled.
use ripsync.Prelude.{ℕ}

pub record Stats : Type 0 where
  pub copied : ℕ
  pub updated : ℕ
  pub skipped : ℕ
  pub deleted : ℕ
  pub errors : ℕ
  pub bytes : ℕ

-- `Stats::default()`
abbrev pub no_stats : Stats
no_stats = record { copied = 0; updated = 0; skipped = 0; deleted = 0; errors = 0; bytes = 0 }
