-- ===== src/Entries.antt =====
-- The entries of a tree: crates/ripsync-core/src/walk.rs and meta.rs (`MinMeta`), and the actions
-- of plan.rs.
use Prim.Native.Nat.{bit_and}
use ripsync.Prelude.{ℕ, Bool, true, false, List}
use ripsync.Prelude.Int.{ℤ}
use ripsync.Paths.{RelPath}

-- `FileTime`
pub record FileTime : Type 0 where
  pub unix_seconds : ℤ
  pub nanoseconds : ℕ

-- `FileTypeKind`
pub data FileTypeKind : Type 0 where
  file dir symlink other : FileTypeKind

pub record MinMeta : Type 0 where
  pub kind : FileTypeKind
  pub len : ℕ
  pub mtime : FileTime
  pub mode : ℕ
  pub ino : ℕ
  pub dev : ℕ
  pub uid : ℕ
  pub gid : ℕ

-- A link's target is its text.
pub data EntryKind : Type 0 where
  dir : EntryKind
  file : EntryKind
  symlink : List ℕ → EntryKind

pub record Entry : Type 0 where
  pub rel : RelPath
  pub kind : EntryKind
  pub len : ℕ
  pub mtime : FileTime
  pub mode : ℕ
  pub ino : ℕ
  pub dev : ℕ
  pub uid : ℕ
  pub gid : ℕ

abbrev pub kind_is_file : EntryKind → Bool
kind_is_file EntryKind.file = true
kind_is_file EntryKind.dir = false
kind_is_file (EntryKind.symlink _) = false

abbrev pub kind_is_dir : EntryKind → Bool
kind_is_dir EntryKind.dir = true
kind_is_dir EntryKind.file = false
kind_is_dir (EntryKind.symlink _) = false

-- `Entry::is_file` and `Entry::is_dir`
abbrev pub is_file : Entry → Bool
is_file e = kind_is_file e.kind

abbrev pub is_dir : Entry → Bool
is_dir e = kind_is_dir e.kind

-- `mode & 0o7777`
abbrev pub permissions : ℕ → ℕ
permissions mode = bit_and mode 0o7777

-- `Action`
pub data Action : Type 0 where
  copy update skip : Action

abbrev pub is_skip : Action → Bool
is_skip copy = false
is_skip update = false
is_skip skip = true

pub record PlannedAction : Type 0 where
  pub entry : Entry
  pub action : Action

pub record Deletion : Type 0 where
  pub rel : RelPath
  pub is_dir : Bool

pub record SyncPlan : Type 0 where
  pub actions : List PlannedAction
  pub deletions : List Deletion
