-- ===== src/Meta.antt =====
-- crates/ripsync-core/src/meta.rs: the checks that keep a path below its root. Owners, modes, times
-- and extended attributes are calls of the system.
pub mod Containment
mod Tests
use ripsync.Prelude.{
  ℕ, Bool, true, false, Option, none, some, List, [], ◌∷◌, ◌++◌, if◌then◌else◌, ok, err, ◌>>=◌,
}
use ripsync.Errors.{
  Component, normal, cur_dir, parent_dir, root_dir, FilePath, Error, Outcome, bare_io, containment,
}
use ripsync.Paths.{RelPath, starts_with}
use ripsync.Disk.{AbsPath, Disk, parent, file_name}

-- Some component is `..` or the root.
unfoldable pub escapes : FilePath → Bool
escapes [] = false
escapes (normal _ ∷ rel) = escapes rel
escapes (cur_dir ∷ rel) = escapes rel
escapes (parent_dir ∷ rel) = true
escapes (root_dir ∷ rel) = true

unfoldable pub check_relative : FilePath → Outcome (Unit {0})
unfolding escapes
check_relative rel = if escapes rel then err (containment rel) else ok tt

-- The names of a path, which is what joining it to a root adds.
abbrev pub names : FilePath → RelPath
names [] = []
names (normal name ∷ rel) = name ∷ names rel
names (_ ∷ rel) = names rel

-- A path of names as a path.
abbrev pub path_of : RelPath → FilePath
path_of [] = []
path_of (name ∷ rel) = normal name ∷ path_of rel

abbrev pub absolute : AbsPath → FilePath
absolute path = root_dir ∷ path_of path

module _ {S : Type 0} (disk : Disk S) where
  unfoldable pub canonical_root : S → AbsPath → Outcome (AbsPath × S)
  canonical_root s root =
      let made = disk.create_dir_all s root in
      if disk.exists s root
      then (disk.canonicalize s root >>= λ path. ok (path, s))
      else (if made.0
          then (disk.canonicalize made.1 root >>= λ path. ok (path, made.1))
          else err bare_io)

  -- Behind the parent's canonical path.
  abbrev pub join_name : AbsPath → Option (List ℕ) → AbsPath → Outcome AbsPath
  join_name target none parent_canon = err (containment (absolute target))
  join_name target (some name) parent_canon = ok (parent_canon ++ (name ∷ []))

  abbrev pub contained_in : AbsPath → AbsPath → Option AbsPath → S → Outcome AbsPath
  contained_in root target none s = err (containment (absolute target))
  contained_in root target (some dir) s = disk.canonicalize s dir >>= λ parent_canon.
      if starts_with parent_canon root
      then join_name target (file_name target) parent_canon
      else err (containment (absolute target))

  unfoldable pub contained_target : AbsPath → AbsPath → S → Outcome AbsPath
  unfolding parent file_name starts_with
  contained_target root target s = contained_in root target (parent target) s
