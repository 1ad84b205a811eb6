-- ===== src/Errors.antt =====
-- crates/ripsync-core/src/error.rs, and the paths that the errors and the trees are about.
-- The texts that some errors carry are not modelled.
use ripsync.Prelude.{ℕ, List, Result}

-- A relative or absolute path as its components; a name is its bytes.
pub data Component : Type 0 where
  normal : List ℕ → Component
  cur_dir parent_dir root_dir : Component

abbrev pub FilePath : Type 0
FilePath = List Component

pub data Error : Type 0 where
  cancelled : Error
  io : FilePath → Error
  bare_io : Error
  containment : FilePath → Error
  empty_source : FilePath → Error
  pattern_invalid : Error
  filter : Error
  delta_apply : Error
  protocol : Error
  verification : ℕ → Error

abbrev pub Outcome {ℓ} : Type ℓ → Type ℓ
Outcome A = Result Error A
