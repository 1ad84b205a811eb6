-- ===== src/Verify.antt =====
-- crates/ripsync-core/src/verify.rs: what a run checks once the plan is applied. The walks, the
-- checkpoints and the two trees are inputs; events are not modelled.
pub mod Clean
pub mod Run
mod Tests
use ripsync.Prelude.{
  ℕ, zero, suc, ◌+◌, ◌==◌, Bool, true, false, not, ◌&&◌, ◌||◌, Option, none, some, List, [], ◌∷◌,
  ◌++◌, length, if◌then◌else◌, list_eq, ok, err, ◌>>=◌, ◌>>◌,
}
use ripsync.Prelude.Int.{int_eq}
use ripsync.Errors.{Outcome, bare_io}
use ripsync.Paths.{RelPath, lookup, contains}
use ripsync.Paths.Texts.{path_text_eq}
use ripsync.Entries.{
  FileTime, FileTypeKind, MinMeta, EntryKind, Entry, is_file, permissions, Action, skip,
  PlannedAction,
}
use ripsync.Index.Classify.{Live}
use ripsync.Plan.{FileId, id_eq, action_eq, retain, rels, collect}

pub data VerifyMode : Type 0 where
  no_check changed all : VerifyMode

-- `MetadataOptions` of apply.rs.
pub record MetadataOptions : Type 0 where
  pub hard_links : Bool
  pub sparse : Bool
  pub xattrs : Bool
  pub acls : Bool
  pub owner : Bool
  pub group : Bool

-- The texts of `VerificationMismatch::detail`.
pub data Detail : Type 0 where
  missing kind_differs mode_differs mtime_differs uid_differs gid_differs content_differs
        sparse_differs :
      Detail
  target_differs attributes_differ hardlink_differs extra : Detail

pub record VerificationMismatch : Type 0 where
  pub rel : RelPath
  pub detail : Detail

pub record VerificationSummary : Type 0 where
  pub checked : ℕ
  pub mismatches : List VerificationMismatch

-- A tree with the blocks that a file takes and its extended attributes, sorted, as one text.
pub record Tree : Type 0 where
  pub live : Live
  pub sparse_blocks : RelPath → Option ℕ
  pub extended_attributes : RelPath → Option (List ℕ)

abbrev pub same_discriminant : EntryKind → EntryKind → Bool
same_discriminant EntryKind.file EntryKind.file = true
same_discriminant EntryKind.dir EntryKind.dir = true
same_discriminant (EntryKind.symlink _) (EntryKind.symlink _) = true
same_discriminant _ _ = false

abbrev pub time_eq : FileTime → FileTime → Bool
time_eq a b = int_eq a.unix_seconds b.unix_seconds && a.nanoseconds == b.nanoseconds

abbrev pub blocks_eq : Option ℕ → Option ℕ → Bool
blocks_eq none none = true
blocks_eq (some a) (some b) = a == b
blocks_eq (some _) none = false
blocks_eq none (some _) = false

abbrev pub text_eq : Option (List ℕ) → Option (List ℕ) → Bool
text_eq none none = true
text_eq (some a) (some b) = list_eq a b
text_eq (some _) none = false
text_eq none (some _) = false

-- `hash_file(..)? != hash_file(..)?`
abbrev pub digests_eq : Option (List ℕ) → Option (List ℕ) → Outcome Bool
digests_eq none _ = err bare_io
digests_eq (some a) none = err bare_io
digests_eq (some a) (some b) = ok (list_eq a b)

module _ (src dst : Tree) (metadata : MetadataOptions) where
  -- The match on the kinds; `none` goes on to the attributes.
  unfoldable pub compare_content : Entry → Entry → EntryKind → EntryKind → Outcome (Option Detail)
  compare_content source destination EntryKind.file EntryKind.file =
      (if source.len == destination.len
        then digests_eq (src.live.hash_file source.rel) (dst.live.hash_file source.rel)
        else ok false)
      >>= λ same. ok (
          if not same
          then some content_differs
          else (if metadata.sparse
                && not (blocks_eq (src.sparse_blocks source.rel) (dst.sparse_blocks source.rel))
              then some sparse_differs
              else none))
  compare_content source destination (EntryKind.symlink a) (EntryKind.symlink b) =
      ok (if path_text_eq a b then none else some target_differs)
  compare_content source destination _ _ = ok none

  abbrev pub or_attributes : Entry → Option Detail → Option Detail
  or_attributes source (some detail) = some detail
  or_attributes source none =
      if (metadata.xattrs || metadata.acls)
        && not (text_eq (src.extended_attributes source.rel) (dst.extended_attributes source.rel))
      then some attributes_differ
      else none

  -- `compare_entry` behind the test for a missing entry.
  unfoldable pub compare_found : Entry → Entry → Outcome (Option Detail)
  unfolding compare_content
  compare_found source destination =
      if not (same_discriminant source.kind destination.kind)
      then ok (some kind_differs)
      else (if not (permissions source.mode == permissions destination.mode)
          then ok (some mode_differs)
          else (if not (time_eq source.mtime destination.mtime)
              then ok (some mtime_differs)
              else (if metadata.owner && not (source.uid == destination.uid)
                  then ok (some uid_differs)
                  else (if metadata.group && not (source.gid == destination.gid)
                      then ok (some gid_differs)
                      else compare_content source destination source.kind destination.kind
                        >>= λ detail. ok (or_attributes source detail)))))

  unfoldable pub compare_entry : Entry → Option Entry → Outcome (Option Detail)
  unfolding compare_found
  compare_entry source none = ok (some missing)
  compare_entry source (some destination) = compare_found source destination

  abbrev pub reported : RelPath → Option Detail → List VerificationMismatch
  reported rel none = []
  reported rel (some detail) = record { rel = rel; detail = detail } ∷ []

  -- The first loop. The checkpoints are numbered.
  unfoldable pub compare_loop :
      (ℕ → Outcome (Unit {0}))
      → ℕ
      → List (RelPath × Entry)
      → List Entry
      → Outcome (List VerificationMismatch)
  unfolding compare_entry
  compare_loop checkpoint n destination [] = ok []
  compare_loop checkpoint n destination (entry ∷ entries) =
      checkpoint n >> compare_entry entry (lookup entry.rel destination) >>= λ problem.
      compare_loop checkpoint (n + 1) destination entries >>= λ others.
      ok (reported entry.rel problem ++ others)
