-- ===== src/Plan.antt =====
-- crates/ripsync-core/src/plan.rs: what a run will do. The walks, the checkpoints and the loaded
-- manifest are what the two trees and the caller's control answer; events are not modelled.
mod Tests
pub mod Order
pub mod Deletions
pub mod Hardlinks
pub mod Build
pub mod Skips
use ripsync.Prelude.{
  ℕ, ◌+◌, Bool, true, false, not, ◌&&◌, ◌||◌, ◌==◌, Option, none, some, List, [], ◌∷◌, map,
  if◌then◌else◌, Result, ok, err, ◌>>=◌, ◌>>◌, list_eq,
}
use ripsync.Prelude.Int.{int_eq}
use ripsync.Errors.{Outcome, FilePath, Error}
use ripsync.Paths.Texts.{path_text_eq}
use ripsync.Paths.{RelPath, path_lt, starts_with, contains, lookup, insert}
use ripsync.Entries.{
  MinMeta, EntryKind, Entry, is_file, is_dir, permissions, Action, copy, update, skip, is_skip,
  PlannedAction, Deletion, SyncPlan,
}
use ripsync.Index.{Kind, ManifestEntry, Manifest}
use ripsync.Index.Classify.{Live, classify}

pub record PlanOptions : Type 0 where
  pub checksum : Bool
  pub delete : Bool
  pub threads : ℕ
  pub index : Bool
  pub hard_links : Bool

-- What planning learns from outside: the two trees, the answers of the walks, of the checkpoints
-- in their order and of `Manifest::load`.
pub record World : Type 0 where
  pub src_root : FilePath
  pub src : Live
  pub dst : Live
  pub walk_src : Outcome (List Entry)
  pub walk_dst : Outcome (List Entry)
  pub dst_exists : Bool
  pub manifest : Option Manifest
  pub checkpoint : ℕ → Outcome (Unit {0})

-- `".ripsync"`
abbrev pub ripsync_dir : RelPath
ripsync_dir = (46 ∷ 114 ∷ 105 ∷ 112 ∷ 115 ∷ 121 ∷ 110 ∷ 99 ∷ []) ∷ []

abbrev pub action_eq : Action → Action → Bool
action_eq copy copy = true
action_eq update update = true
action_eq skip skip = true
action_eq _ _ = false

unfoldable pub count : Action → List PlannedAction → ℕ
count action [] = 0
count action (p ∷ ps) = let n = count action ps in if action_eq p.action action then n + 1 else n

unfoldable pub bytes_to_transfer : List PlannedAction → ℕ
bytes_to_transfer [] = 0
bytes_to_transfer (p ∷ ps) =
    let n = bytes_to_transfer ps in
    if not (action_eq p.action skip) && is_file p.entry then p.entry.len + n else n

abbrev hashes_differ : Option (List ℕ) → Option (List ℕ) → Bool → Bool
hashes_differ (some a) (some b) metadata_differs = metadata_differs || not (list_eq a b)
hashes_differ (some a) none _ = true
hashes_differ none _ _ = true

unfoldable pub files_differ : Live → Live → Entry → Entry → Bool → Bool
files_differ src dst entry d checksum =
    let metadata_differs =
      not (permissions entry.mode == permissions d.mode)
      || not (int_eq entry.mtime.unix_seconds d.mtime.unix_seconds) in
    if checksum
    then hashes_differ (src.hash_file entry.rel) (dst.hash_file d.rel) metadata_differs
    else not (entry.len == d.len) || metadata_differs

module _ (src dst : Live) (entry dst_entry : Entry) (checksum : Bool) where
  -- The match on the two kinds.
  unfoldable pub classify_kinds : EntryKind → EntryKind → Action
  unfolding files_differ
  classify_kinds EntryKind.dir EntryKind.dir =
      if permissions entry.mode == permissions dst_entry.mode
        && int_eq entry.mtime.unix_seconds dst_entry.mtime.unix_seconds
      then skip
      else update
  classify_kinds (EntryKind.symlink a) (EntryKind.symlink b) =
      if path_text_eq a b && int_eq entry.mtime.unix_seconds dst_entry.mtime.unix_seconds
      then skip
      else update
  classify_kinds EntryKind.file EntryKind.file =
      if files_differ src dst entry dst_entry checksum then update else skip
  classify_kinds _ _ = update

  unfoldable pub classify_existing : Action
  unfolding classify_kinds
  classify_existing = classify_kinds entry.kind dst_entry.kind

-- `(dev, ino)`
abbrev pub FileId : Type 0
FileId = ℕ × ℕ

abbrev pub id_eq : FileId → FileId → Bool
id_eq (d, i) (e, j) = d == e && i == j

unfoldable pub find_id : FileId → List (FileId × Option FileId) → Option (Option FileId)
find_id id [] = none
find_id id ((key, v) ∷ first) = if id_eq key id then some v else find_id id first

-- `!=` of two optional identities
abbrev pub identities_eq : Option FileId → Option FileId → Bool
identities_eq none none = true
identities_eq none (some _) = false
identities_eq (some _) none = false
identities_eq (some a) (some b) = id_eq a b

abbrev pub source_id : PlannedAction → FileId
source_id p = (p.entry.dev, p.entry.ino)

module _ (destination_identity : RelPath → Option FileId) where
  -- The body of the loop on a file, by what `first.get` gives.
  abbrev pub topology : PlannedAction → Option (Option FileId) → PlannedAction
  topology p (some canonical_destination) =
      if identities_eq (destination_identity p.entry.rel) canonical_destination
      then p
      else record p { action = update }
  topology p none = p

  abbrev pub remember :
      PlannedAction
      → Option (Option FileId)
      → List (FileId × Option FileId)
      → List (FileId × Option FileId)
  remember p (some _) first = first
  remember p none first = (source_id p, destination_identity p.entry.rel) ∷ first

  unfoldable pub enforce_loop :
      List (FileId × Option FileId) → List PlannedAction → List PlannedAction
  unfolding find_id
  enforce_loop first [] = []
  enforce_loop first (p ∷ ps) =
      let seen = find_id (source_id p) first in
      let other = enforce_loop first ps in
      let rest = enforce_loop (remember p seen first) ps in
      if is_file p.entry then topology p seen ∷ rest else p ∷ other

  unfoldable pub enforce_hardlink_actions : List PlannedAction → List PlannedAction
  unfolding enforce_loop
  enforce_hardlink_actions actions = enforce_loop [] actions

-- `retain(|e| !e.rel.starts_with(RIPSYNC_DIR))`
unfoldable pub retain : List Entry → List Entry
unfolding starts_with
retain [] = []
retain (e ∷ es) = let rest = retain es in if starts_with e.rel ripsync_dir then rest else e ∷ rest

abbrev pub rels : List Entry → List RelPath
rels [] = []
rels (e ∷ es) = e.rel ∷ rels es

-- `sort_by(|a, b| b.rel.cmp(&a.rel))`, which is stable.
unfoldable pub insert_deletion : Deletion → List Deletion → List Deletion
insert_deletion d [] = d ∷ []
insert_deletion d (e ∷ ds) =
    let rest = insert_deletion d ds in if path_lt d.rel e.rel then e ∷ rest else d ∷ e ∷ ds

unfoldable pub sort_deletions : List Deletion → List Deletion
unfolding insert_deletion
sort_deletions [] = []
sort_deletions (d ∷ ds) = insert_deletion d (sort_deletions ds)

unfoldable pub missing_in : List RelPath → List Entry → List Deletion
missing_in src_set [] = []
missing_in src_set (d ∷ ds) =
    let rest = missing_in src_set ds in
    if contains src_set d.rel then rest else record { rel = d.rel; is_dir = is_dir d } ∷ rest

abbrev is_dir_kind : Kind → Bool
is_dir_kind Kind.dir = true
is_dir_kind Kind.file = false
is_dir_kind Kind.symlink = false

unfoldable pub missing_records : List RelPath → List (RelPath × ManifestEntry) → List Deletion
missing_records src_set [] = []
missing_records src_set ((rel, recorded) ∷ entries) =
    let rest = missing_records src_set entries in
    if contains src_set rel
    then rest
    else record { rel = rel; is_dir = is_dir_kind recorded.kind } ∷ rest

unfoldable pub deletions_of : List Entry → List Entry → List Deletion
unfolding missing_in sort_deletions
deletions_of src_entries dst_entries = sort_deletions (missing_in (rels src_entries) dst_entries)

-- `dst_entries.iter().map(...).collect()`: of two entries with one path the later one stays.
unfoldable pub collect : List (RelPath × Entry) → List Entry → List (RelPath × Entry)
collect acc [] = acc
collect acc (e ∷ es) = collect (insert e.rel e acc) es

abbrev identity_of : Option Entry → Option FileId
identity_of none = none
identity_of (some e) = some (e.dev, e.ino)

abbrev identity_of_meta : Option MinMeta → Option FileId
identity_of_meta none = none
identity_of_meta (some m) = some (m.dev, m.ino)

module _ (w : World) (opts : PlanOptions) where
  unfoldable pub classify_entry : List (RelPath × Entry) → Entry → PlannedAction
  unfolding classify_existing
  classify_entry dst_map entry = elim (lookup entry.rel dst_map) [
    | none ↦ record { entry = entry; action = copy }
    | some dst_entry ↦ record {
      entry = entry;
      action = classify_existing w.src w.dst entry dst_entry opts.checksum;
    }
  ]

  -- The end of `build_plan_controlled`, behind the walk of the destination.
  unfoldable pub plan_from_walk : List Entry → List Entry → SyncPlan
  unfolding collect classify_entry enforce_hardlink_actions deletions_of
  plan_from_walk src_entries dst_entries =
      let dst_map = collect [] dst_entries in
      let actions = map (classify_entry dst_map) src_entries in
      record {
        actions =
            if opts.hard_links
            then enforce_hardlink_actions (λ rel. identity_of (lookup rel dst_map)) actions
            else actions;
        deletions = if opts.delete then deletions_of src_entries dst_entries else [];
      }

  unfoldable pub plan_from_manifest : List Entry → Manifest → SyncPlan
  unfolding classify enforce_hardlink_actions missing_records sort_deletions
  plan_from_manifest src_entries manifest =
      let actions =
        map
          (λ (entry : Entry). record {
            entry = entry;
            action = classify w.src w.dst entry opts.checksum manifest;
          })
          src_entries in
      record {
        actions =
            if opts.hard_links
            then enforce_hardlink_actions (λ rel. identity_of_meta (w.dst.meta_min rel)) actions
            else actions;
        deletions =
            if opts.delete
            then sort_deletions (missing_records (rels src_entries) manifest.entries)
            else [];
      }

  abbrev pub is_empty : List Entry → Bool
  is_empty [] = true
  is_empty (_ ∷ _) = false

  -- `Manifest::load`, where the index is asked for.
  abbrev pub indexed : Option Manifest
  indexed = if opts.index && not opts.delete then w.manifest else none

  abbrev pub dst_walk : Outcome (List Entry)
  dst_walk = if w.dst_exists then w.walk_dst else ok []

  abbrev pub plan_by : List Entry → Option Manifest → Outcome SyncPlan
  plan_by src_entries (some manifest) = ok (plan_from_manifest src_entries manifest)
  plan_by src_entries none = dst_walk >>= λ dst_entries.
      w.checkpoint 2 >> ok (plan_from_walk src_entries (retain dst_entries))

  -- `build_plan_controlled`
  unfoldable pub build_plan : Outcome SyncPlan
  unfolding retain plan_from_walk plan_from_manifest
  build_plan = w.checkpoint 0 >> w.walk_src >>= λ walked.
      w.checkpoint 1
      >> (if opts.delete && is_empty (retain walked)
          then err (Error.empty_source w.src_root)
          else plan_by (retain walked) indexed)
