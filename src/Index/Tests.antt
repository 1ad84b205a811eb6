-- ===== src/Index/Tests.antt =====
-- Runs of the journal's theorems, with a format of two changes.
use ripsync.Prelude.{
  ℕ, zero, suc, ◌≡◌, refl, arith, List, [], ◌∷◌, ◌++◌, Option, some, none, length, take, list_eq,
  false, true, ok, err, ok-injective, ap, sym, ◌∙◌,
}
use ripsync.Prelude.Int.{pos}
use ripsync.Paths.{RelPath, lookup, path_eq}
use ripsync.Entries.{MinMeta, FileTypeKind, EntryKind, Entry, skip, update, SyncPlan}
use ripsync.Index.{Kind, ManifestEntry, Manifest, Change, upsert, delete}
use ripsync.Index.Classify.{
  Live, classify, UpToDate, classify_skip, classify_recorded, metadata_matches, destination_matches,
  live_matches,
}
use ripsync.Index.Journal.{
  Format, Map, to_le_bytes, replay_journal, append_changes, record_of, needs_compaction,
}
use ripsync.Index.Journal.Records.{IsLawful, header}
use ripsync.Index.Journal.Replay.{
  records, apply_changes, replay_journal-append_changes, replay_journal_torn,
}
use ripsync.Index.Journal.Crash.{lookup-replay_twice, replay_journal_lost}
use ripsync.Errors.{bare_io}
use ripsync.Plan.{ripsync_dir}
use ripsync.Index.Snapshot.{
  Files, snapshot_renamed, Manifests, DirCalls, Found, AppendCalls, SaveCalls, load, upserts,
  deletes, append, save_snapshot, metadata_dir, persist_after_plan,
}
use ripsync.Index.Snapshot.Changes.{expected}
use ripsync.Index.Snapshot.Recorded.{Recorded}
use ripsync.Index.Snapshot.Store.{load-persist_after_plan, load-snapshot_renamed}

abbrev a_path : RelPath
a_path = (97 ∷ []) ∷ []

abbrev a_record : ManifestEntry
a_record = record {
  kind = Kind.file;
  size = 3;
  mtime_s = pos 5;
  mtime_ns = 0;
  ino = 1;
  dev = 1;
  mode = 0o644;
  hash = none;
  target = none;
}

abbrev serialize : Change → List ℕ
serialize (upsert _ _) = 1 ∷ 7 ∷ []
serialize (delete _) = 0 ∷ 7 ∷ []

abbrev deserialize : List ℕ → Option Change
deserialize (suc _ ∷ _) = some (upsert a_path a_record)
deserialize (zero ∷ _) = some (delete a_path)
deserialize [] = none

abbrev zeros : List ℕ
zeros =
    0 ∷ 0 ∷ 0 ∷ 0 ∷ 0 ∷ 0 ∷ 0 ∷ 0 ∷ 0 ∷ 0 ∷ 0 ∷ 0 ∷ 0 ∷ 0 ∷ 0 ∷ 0 ∷ 0 ∷ 0 ∷ 0 ∷ 0 ∷ 0 ∷ 0 ∷ 0 ∷ 0
    ∷ 0 ∷ 0 ∷ 0 ∷ 0 ∷ 0 ∷ 0 ∷ []

abbrev digest : List ℕ → List ℕ
digest (x ∷ y ∷ _) = x ∷ y ∷ zeros
digest (x ∷ []) = x ∷ 0 ∷ zeros
digest [] = 0 ∷ 0 ∷ zeros

length-digest : (bytes : List ℕ) → length (digest bytes) ≡ 32
length-digest [] = refl
length-digest (x ∷ []) = refl
length-digest (x ∷ y ∷ rest) = refl

abbrev format : Format
format = record {
  serialize = serialize;
  can_serialize = λ change. true;
  deserialize = deserialize;
  blake3_hash = digest;
}

lawful : IsLawful format
lawful = record { length-blake3_hash = length-digest }

abbrev added : Change
added = upsert a_path a_record

abbrev removed : Change
removed = delete a_path

replay_journal-append_changes_example :
    replay_journal format
      (append_changes format (records format (added ∷ [])) (removed ∷ added ∷ [])).0
      []
    ≡ some (apply_changes (removed ∷ added ∷ []) (apply_changes (added ∷ []) []))
replay_journal-append_changes_example =
    replay_journal-append_changes format lawful (added ∷ []) (removed ∷ added ∷ []) []
      ((omega arith, refl), tt) ((omega arith, refl), ((omega arith, refl), tt)) (refl, (refl, tt))

replay_journal_torn_example :
    replay_journal format (records format (added ∷ []) ++ take 37 (record_of format removed)) []
    ≡ some (apply_changes (added ∷ []) [])
unfolding to_le_bytes
replay_journal_torn_example =
    replay_journal_torn format lawful (added ∷ []) removed 37 [] ((omega arith, refl), tt)
      (omega arith, refl) (omega arith)

lookup-replay_twice_example :
    (loaded : Map) × (replay_journal format
        (records format (added ∷ removed ∷ []))
        (apply_changes (added ∷ removed ∷ []) [])
      ≡ some loaded)
    × (lookup a_path loaded ≡ lookup a_path (apply_changes (added ∷ removed ∷ []) []))
lookup-replay_twice_example =
    lookup-replay_twice format lawful (added ∷ removed ∷ []) [] a_path
      ((omega arith, refl), ((omega arith, refl), tt))

wrong : list_eq (digest (1 ∷ 2 ∷ [])) (digest (1 ∷ 7 ∷ [])) ≡ false
unfolding list_eq
wrong = refl

replay_journal_lost_example :
    replay_journal format
      (append_changes format
        (records format (removed ∷ []) ++ header format lawful added (1 ∷ []))
        (removed ∷ [])).0
      []
    ≡ some (apply_changes (removed ∷ []) [])
unfolding to_le_bytes
replay_journal_lost_example =
    replay_journal_lost format lawful (removed ∷ []) (removed ∷ []) added 1 []
      ((omega arith, refl), tt) ((omega arith, refl), tt) (refl, tt) (omega arith, refl)
      (omega arith) (omega arith) wrong

abbrev an_entry : Entry
an_entry = record {
  rel = a_path;
  kind = EntryKind.file;
  len = 3;
  mtime = record { unix_seconds = pos 5; nanoseconds = 0 };
  mode = 0o644;
  ino = 9;
  dev = 1;
  uid = 0;
  gid = 0;
}

abbrev a_meta : MinMeta
a_meta = record {
  kind = FileTypeKind.file;
  len = 3;
  mtime = record { unix_seconds = pos 5; nanoseconds = 0 };
  mode = 0o644;
  ino = 1;
  dev = 1;
  uid = 0;
  gid = 0;
}

abbrev tree : Live
tree = record { meta_min = λ rel. some a_meta; read_link = λ rel. none; hash_file = λ rel. none }

abbrev manifest : Manifest
manifest = record { version = 3; entries = (a_path, a_record) ∷ [] }

recorded : classify tree tree an_entry false manifest ≡ skip
unfolding classify classify_recorded metadata_matches destination_matches live_matches lookup
    path_eq list_eq
recorded = refl

classify_skip_example :
    (found : ManifestEntry) × (lookup a_path manifest.entries ≡ some found)
    × (meta : MinMeta) × UpToDate tree an_entry EntryKind.file meta
classify_skip_example = classify_skip tree tree an_entry false manifest recorded

-- A run that updates one file, whose record goes to the journal and then into the snapshot.
abbrev manifests : Manifests
manifests = record {
  serialize = λ m. 2 ∷ [];
  can_serialize = λ m. true;
  deserialize = λ bytes. some manifest;
}

abbrev dir_calls : DirCalls
dir_calls = record {
  canonical_root = ok ((100 ∷ []) ∷ []);
  found = Found.not_found;
  create_dir = ok tt;
  set_permissions = ok tt;
  canonicalize = ok ((100 ∷ []) ∷ ripsync_dir);
}

abbrev appending : AppendCalls format manifests
appending = record {
  dir = dir_calls;
  contain_journal = ok tt;
  open_journal = ok tt;
  sync_data = ok tt;
}

abbrev saving : SaveCalls format manifests
saving = record {
  dir = dir_calls;
  write_tmp = ok tt;
  contain_manifest = ok tt;
  rename = ok tt;
  contain_journal = ok tt;
  remove_journal = ok tt;
}

abbrev files : Files
files = record { snapshot = some (1 ∷ []); journal = none }

abbrev files_after : Files
files_after = record { snapshot = some (2 ∷ []); journal = none }

abbrev a_plan : SyncPlan
a_plan = record { actions = record { entry = an_entry; action = update } ∷ []; deletions = [] }

persisted :
    persist_after_plan format manifests appending saving tree false a_plan true files
    ≡ (ok tt, files_after)
unfolding persist_after_plan load upserts deletes append append_changes needs_compaction
    save_snapshot metadata_dir list_eq to_le_bytes
persisted = refl

updated : expected tree false a_plan (load format manifests true files) ≡ ok manifest
unfolding load upserts deletes path_eq list_eq
updated = refl

load-persist_after_plan_example :
    (manifest : Manifest) × (load format manifests true files_after ≡ some manifest)
    × ((p : RelPath)
        → Recorded tree false a_plan
            (load format manifests true files)
            p
            (lookup p manifest.entries))
unfolding load upserts deletes
load-persist_after_plan_example =
    load-persist_after_plan format manifests lawful appending saving [] tt files refl tree false
      a_plan files_after ((omega arith, refl), tt) (λ m e. ap some (ok-injective (sym updated ∙ e)))
      persisted

-- The journal cannot be removed.
abbrev stopping : SaveCalls format manifests
stopping = record saving { remove_journal = err bare_io }

abbrev old_files : Files
old_files = record { snapshot = none; journal = some (records format (removed ∷ [])) }

load-snapshot_renamed_example :
    load format manifests true
      (snapshot_renamed format manifests stopping manifest old_files (ok tt)).1
    ≡ some (record manifest { entries = apply_changes (removed ∷ []) manifest.entries })
load-snapshot_renamed_example =
    load-snapshot_renamed format manifests lawful appending stopping (removed ∷ [])
      ((omega arith, refl), tt) old_files refl manifest bare_io refl refl refl
