-- ===== src/Disk.antt =====
-- The calls of the Rust standard library on a file system that the program makes, on a state of any
-- type. A path is absolute, given by its names. A call that changes the state tells whether it
-- succeeded.
use ripsync.Prelude.{ℕ, Bool, Option, List, [], ◌∷◌, some, none}
use ripsync.Errors.{Outcome}
use ripsync.Entries.{FileTime}

abbrev pub AbsPath : Type 0
AbsPath = List (List ℕ)

pub record Disk (S : Type 0) : Type 0 where
  pub exists : S → AbsPath → Bool
  pub canonicalize : S → AbsPath → Outcome AbsPath
  -- `symlink_metadata(..).is_dir()`, where there is an entry.
  pub is_dir_at : S → AbsPath → Option Bool
  -- `symlink_metadata(..).is_symlink()`, where there is an entry.
  pub is_symlink_at : S → AbsPath → Option Bool
  pub read : S → AbsPath → Option (List ℕ)
  pub create_dir_all : S → AbsPath → Bool × S
  pub remove_dir : S → AbsPath → Bool × S
  pub remove_dir_all : S → AbsPath → Bool × S
  pub remove_file : S → AbsPath → Bool × S
  pub write : S → AbsPath → List ℕ → Bool × S
  pub rename : S → AbsPath → AbsPath → Bool × S
  pub symlink : S → List ℕ → AbsPath → Bool × S
  pub set_mode : S → AbsPath → ℕ → S
  pub set_mtime : S → AbsPath → FileTime → S
  pub set_symlink_mtime : S → AbsPath → FileTime → S
  -- `rand::random`
  pub random : S → ℕ × S

-- `Path::parent` and `Path::file_name`
unfoldable pub parent : AbsPath → Option AbsPath
parent [] = none
parent (x ∷ []) = some []
parent (x ∷ y ∷ path) = elim (parent (y ∷ path)) [ none ↦ none | some dir ↦ some (x ∷ dir) ]

unfoldable pub file_name : AbsPath → Option (List ℕ)
file_name [] = none
file_name (x ∷ []) = some x
file_name (x ∷ y ∷ path) = file_name (y ∷ path)
