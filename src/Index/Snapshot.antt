-- ===== src/Index/Snapshot.antt =====
-- index.rs: the snapshot and the journal as two files, and the operations of `Manifest` on them. What
-- the system answers to the other calls is given by a record for each operation; a write of
-- journal records goes through.
pub mod Changes
pub mod Recorded
pub mod Store
use ripsync.Prelude.{
  ℕ, zero, suc, Bool, true, false, not, ◌&&◌, Option, none, some, List, [], ◌∷◌, ◌++◌, length,
  ==_iff, ◌==◌, if◌then◌else◌, ok, err, ◌>>=◌, ◌>>◌,
}
use ripsync.Errors.{Outcome, io, bare_io, containment, pattern_invalid}
use ripsync.Paths.{RelPath, starts_with, lookup, insert, remove}
use ripsync.Entries.{
  FileTypeKind, MinMeta, EntryKind, Entry, is_skip, PlannedAction, Deletion, SyncPlan,
}
use ripsync.Disk.{AbsPath}
use ripsync.Meta.{absolute}
use ripsync.Plan.{ripsync_dir}
use ripsync.Index.{Kind, ManifestEntry, Manifest, format_version, Change, upsert, delete}
use ripsync.Index.Classify.{Live}
use ripsync.Index.Journal.{Format, Map, replay_journal, append_changes, needs_compaction}

-- `.ripsync/manifest` and `.ripsync/journal`, where there are such files.
pub record Files : Type 0 where
  pub snapshot : Option (List ℕ)
  pub journal : Option (List ℕ)

-- What `bincode` does for a whole manifest.
pub record Manifests : Type 0 where
  pub serialize : Manifest → List ℕ
  pub can_serialize : Manifest → Bool
  pub deserialize : List ℕ → Option Manifest

-- What `symlink_metadata` of `.ripsync` gives.
pub data Found : Type 0 where
  directory other_kind not_found unreadable : Found

-- The answers of one call of `metadata_dir`, by the destination's canonical root.
pub record DirCalls : Type 0 where
  pub canonical_root : Outcome AbsPath
  pub found : Found
  pub create_dir : Outcome (Unit {0})
  pub set_permissions : Outcome (Unit {0})
  pub canonicalize : Outcome AbsPath

abbrev pub made_dir : DirCalls → AbsPath → Found → Outcome (Unit {0})
made_dir calls requested Found.directory = ok tt
made_dir calls requested Found.other_kind = err (containment (absolute requested))
made_dir calls requested Found.not_found = calls.create_dir >> calls.set_permissions
made_dir calls requested Found.unreadable = err (io (absolute requested))

unfoldable pub metadata_dir : DirCalls → Outcome (AbsPath × AbsPath)
unfolding starts_with
metadata_dir calls = calls.canonical_root >>= λ root.
    made_dir calls (root ++ ripsync_dir) calls.found >> calls.canonicalize >>= λ dir.
    if starts_with dir root
    then ok (root, dir)
    else err (containment (absolute (root ++ ripsync_dir)))

abbrev pub kind_and_target : EntryKind → Option (List ℕ) → Outcome (Kind × Option (List ℕ))
kind_and_target EntryKind.file link = ok (Kind.file, none)
kind_and_target EntryKind.dir link = ok (Kind.dir, none)
kind_and_target (EntryKind.symlink _) (some target) = ok (Kind.symlink, some target)
kind_and_target (EntryKind.symlink _) none = err bare_io

abbrev pub digest_of : Bool → EntryKind → Option (List ℕ) → Outcome (Option (List ℕ))
digest_of true EntryKind.file none = err bare_io
digest_of true EntryKind.file (some digest) = ok (some digest)
digest_of true EntryKind.dir _ = ok none
digest_of true (EntryKind.symlink _) _ = ok none
digest_of false _ _ = ok none

abbrev pub found_meta : Option MinMeta → Outcome MinMeta
found_meta none = err bare_io
found_meta (some meta) = ok meta

-- What is recorded of an entry, as the destination has it.
unfoldable pub entry_from_destination : Live → Entry → Bool → Outcome ManifestEntry
entry_from_destination live entry hash = found_meta (live.meta_min entry.rel) >>= λ meta.
    kind_and_target entry.kind (live.read_link entry.rel) >>= λ (kind, target).
    digest_of hash entry.kind (live.hash_file entry.rel) >>= λ digest. ok (record {
      kind = kind;
      size = meta.len;
      mtime_s = meta.mtime.unix_seconds;
      mtime_ns = meta.mtime.nanoseconds;
      ino = meta.ino;
      dev = meta.dev;
      mode = meta.mode;
      hash = digest;
      target = target;
    })

-- The loop of `from_destination`.
unfoldable pub recorded_from : Live → Bool → List PlannedAction → Map → Outcome Map
unfolding entry_from_destination insert
recorded_from live hash [] entries = ok entries
recorded_from live hash (planned ∷ actions) entries =
    entry_from_destination live planned.entry hash >>= λ recorded.
    recorded_from live hash actions (insert planned.entry.rel recorded entries)

unfoldable pub from_destination : Live → Bool → SyncPlan → Outcome Manifest
unfolding recorded_from
from_destination live hash plan = recorded_from live hash plan.actions [] >>= λ entries.
    ok (record { version = format_version; entries = entries })

-- The two loops of `persist_after_plan`: the changes to append, and the records with them.
unfoldable pub upserts : Live → Bool → List PlannedAction → Map → Outcome (List Change × Map)
unfolding entry_from_destination insert
upserts live hash [] entries = ok ([], entries)
upserts live hash (planned ∷ actions) entries =
    if is_skip planned.action
    then upserts live hash actions entries
    else (entry_from_destination live planned.entry hash >>= λ recorded.
        upserts live hash actions (insert planned.entry.rel recorded entries)
        >>= λ (changes, after). ok (upsert planned.entry.rel recorded ∷ changes, after))

abbrev pub is_recorded : Option ManifestEntry → Bool
is_recorded none = false
is_recorded (some _) = true

unfoldable pub deletes : List Deletion → Map → List Change × Map
unfolding lookup remove
deletes [] entries = ([], entries)
deletes (deletion ∷ deletions) entries =
    let rest = deletes deletions (remove deletion.rel entries) in
    if is_recorded (lookup deletion.rel entries)
    then (delete deletion.rel ∷ rest.0, rest.1)
    else deletes deletions entries

module _ (f : Format) (manifests : Manifests) where
  abbrev pub with_journal : Manifest → Option (List ℕ) → Option Manifest
  with_journal manifest none = some manifest
  with_journal manifest (some bytes) = elim (replay_journal f bytes manifest.entries) [
    | none ↦ none
    | some entries ↦ some (record manifest { entries = entries })
  ]

  abbrev pub current : Option Manifest → Option (List ℕ) → Option Manifest
  current none journal = none
  current (some manifest) journal =
      if manifest.version == format_version then with_journal manifest journal else none

  abbrev pub parsed : Option (List ℕ) → Option Manifest
  parsed none = none
  parsed (some bytes) = manifests.deserialize bytes

  -- `Manifest::load`, where the directory of the snapshot lies inside the destination.
  unfoldable pub load : Bool → Files → Option Manifest
  unfolding replay_journal
  load is_inside files = if is_inside then current (parsed files.snapshot) files.journal else none

  -- The answers of one call of `save_snapshot`.
  pub record SaveCalls : Type 0 where
    pub dir : DirCalls
    pub write_tmp : Outcome (Unit {0})
    pub contain_manifest : Outcome (Unit {0})
    pub rename : Outcome (Unit {0})
    pub contain_journal : Outcome (Unit {0})
    pub remove_journal : Outcome (Unit {0})

  abbrev pub journal_removed : Files → Outcome (Unit {0}) → Outcome (Unit {0}) × Files
  journal_removed files (err e) = (err e, files)
  journal_removed files (ok _) = (ok tt, record files { journal = none })

  abbrev pub snapshot_renamed :
      SaveCalls → Manifest → Files → Outcome (Unit {0}) → Outcome (Unit {0}) × Files
  snapshot_renamed calls manifest files (err e) = (err e, files)
  snapshot_renamed calls manifest files (ok _) =
      journal_removed (record files { snapshot = some (manifests.serialize manifest) })
        (calls.contain_journal >> calls.remove_journal)

  abbrev pub written : Manifest → Outcome (Unit {0})
  written manifest = if manifests.can_serialize manifest then ok tt else err pattern_invalid

  -- `save_snapshot`: the outcome and the files, which an error leaves as far as they came.
  unfoldable pub save_snapshot : SaveCalls → Manifest → Files → Outcome (Unit {0}) × Files
  unfolding metadata_dir
  save_snapshot calls manifest files = snapshot_renamed calls manifest files (
      metadata_dir calls.dir >>= λ _.
      written manifest >> calls.write_tmp >> calls.contain_manifest >> calls.rename)

  -- The answers of one call of `append`.
  pub record AppendCalls : Type 0 where
    pub dir : DirCalls
    pub contain_journal : Outcome (Unit {0})
    pub open_journal : Outcome (Unit {0})
    pub sync_data : Outcome (Unit {0})

  abbrev pub bytes_of : Option (List ℕ) → List ℕ
  bytes_of none = []
  bytes_of (some bytes) = bytes

  abbrev pub append_to :
      AppendCalls → List Change → Files → Outcome (Unit {0}) → Outcome (Unit {0}) × Files
  append_to calls changes files (err e) = (err e, files)
  append_to calls changes files (ok _) =
      let journal = append_changes f (bytes_of files.journal) changes in
      (journal.1 >> calls.sync_data, record files { journal = some journal.0 })

  unfoldable pub append : AppendCalls → List Change → Files → Outcome (Unit {0}) × Files
  unfolding append_changes metadata_dir
  append calls [] files = (ok tt, files)
  append calls (change ∷ changes) files =
      append_to calls (change ∷ changes) files
        (metadata_dir calls.dir >>= λ _. calls.contain_journal >> calls.open_journal)

  abbrev pub compacted :
      SaveCalls → Manifest → Outcome (Unit {0}) × Files → Outcome (Unit {0}) × Files
  compacted calls manifest (err e, files) = (err e, files)
  compacted calls manifest (ok _, files) =
      if needs_compaction (length (bytes_of files.journal)) (length (bytes_of files.snapshot))
      then save_snapshot calls manifest files
      else (ok tt, files)

  abbrev pub persist_changes :
      AppendCalls → SaveCalls → Manifest → List Change → Map → Files → Outcome (Unit {0}) × Files
  persist_changes appending saving manifest changes entries files =
      compacted saving (record manifest { entries = entries }) (append appending changes files)

  abbrev pub saved : SaveCalls → Outcome Manifest → Files → Outcome (Unit {0}) × Files
  saved saving (err e) files = (err e, files)
  saved saving (ok manifest) files = save_snapshot saving manifest files

  abbrev pub persist_upserts :
      AppendCalls
      → SaveCalls
      → SyncPlan
      → Manifest
      → Outcome (List Change × Map)
      → Files
      → Outcome (Unit {0}) × Files
  persist_upserts appending saving plan manifest (err e) files = (err e, files)
  persist_upserts appending saving plan manifest (ok (changes, entries)) files =
      let rest = deletes plan.deletions entries in
      persist_changes appending saving manifest (changes ++ rest.0) rest.1 files

  abbrev pub persist_loaded :
      AppendCalls
      → SaveCalls
      → Live
      → Bool
      → SyncPlan
      → Option Manifest
      → Files
      → Outcome (Unit {0}) × Files
  persist_loaded appending saving live hash plan none files =
      saved saving (from_destination live hash plan) files
  persist_loaded appending saving live hash plan (some manifest) files =
      persist_upserts appending saving plan manifest
        (upserts live hash plan.actions manifest.entries) files

  unfoldable pub persist_after_plan :
      AppendCalls → SaveCalls → Live → Bool → SyncPlan → Bool → Files → Outcome (Unit {0}) × Files
  unfolding load from_destination upserts deletes append save_snapshot needs_compaction
  persist_after_plan appending saving live hash plan is_inside files =
      persist_loaded appending saving live hash plan (load is_inside files) files
