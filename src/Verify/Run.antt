-- ===== src/Verify/Run.antt =====
-- verify.rs: `live_entry` and `verify`. The first checkpoint has the number 0, the loops go on from
-- there.
pub mod Links
pub mod Whole
use ripsync.Prelude.{
  ℕ, zero, suc, ◌+◌, Bool, true, false, not, ◌||◌, Option, none, some, List, [], ◌∷◌, ◌++◌, length,
  if◌then◌else◌, ok, err, ◌>>=◌, ◌>>◌,
}
use ripsync.Errors.{Outcome}
use ripsync.Paths.{RelPath, lookup, contains}
use ripsync.Entries.{
  FileTypeKind, MinMeta, EntryKind, Entry, is_file, is_skip, PlannedAction, SyncPlan,
}
use ripsync.Index.Classify.{Live}
use ripsync.Plan.{FileId, id_eq, retain, rels, collect}
use ripsync.Verify.{
  VerifyMode, no_check, changed, all, MetadataOptions, hardlink_differs, extra,
  VerificationMismatch, VerificationSummary, Tree, compare_loop,
}

abbrev pub kind_at : FileTypeKind → Option (List ℕ) → Option EntryKind
kind_at FileTypeKind.file link = some EntryKind.file
kind_at FileTypeKind.dir link = some EntryKind.dir
kind_at FileTypeKind.symlink (some target) = some (EntryKind.symlink target)
kind_at FileTypeKind.symlink none = none
kind_at FileTypeKind.other link = none

abbrev pub len_at : EntryKind → ℕ → ℕ
len_at EntryKind.file len = len
len_at EntryKind.dir len = 0
len_at (EntryKind.symlink _) len = 0

abbrev pub entry_at : RelPath → MinMeta → Option EntryKind → Option Entry
entry_at rel meta none = none
entry_at rel meta (some kind) = some (record {
  rel = rel;
  kind = kind;
  len = len_at kind meta.len;
  mtime = meta.mtime;
  mode = meta.mode;
  ino = meta.ino;
  dev = meta.dev;
  uid = meta.uid;
  gid = meta.gid;
})

-- `live_entry(..).ok()`
unfoldable pub live_entry : Live → RelPath → Option Entry
live_entry live rel = elim (live.meta_min rel) [
  | none ↦ none
  | some meta ↦ entry_at rel meta (kind_at meta.kind (live.read_link rel))
]

abbrev pub push_found : Option Entry → List Entry → List Entry
push_found none entries = entries
push_found (some entry) entries = entry ∷ entries

-- The entries of the destination that a run looks at where it does not check all.
unfoldable pub live_entries : Live → Bool → List PlannedAction → List Entry
unfolding live_entry
live_entries live hard_links [] = []
live_entries live hard_links (planned ∷ actions) =
    let rest = live_entries live hard_links actions in
    if hard_links || not (is_skip planned.action)
    then push_found (live_entry live planned.entry.rel) rest
    else rest

abbrev pub planned_entries : List PlannedAction → List Entry
planned_entries [] = []
planned_entries (planned ∷ actions) = planned.entry ∷ planned_entries actions

unfoldable pub changed_entries : List PlannedAction → List Entry
changed_entries [] = []
changed_entries (planned ∷ actions) =
    let rest = changed_entries actions in
    if not (is_skip planned.action) then planned.entry ∷ rest else rest

abbrev pub selected : VerifyMode → SyncPlan → List Entry → List Entry
selected no_check plan source_entries = []
selected changed plan source_entries = changed_entries plan.actions
selected all plan source_entries = source_entries

-- `groups.get(&source_id)`
unfoldable pub find_group : FileId → List (FileId × FileId) → Option FileId
find_group id [] = none
find_group id ((key, destination_id) ∷ groups) =
    if id_eq key id then some destination_id else find_group id groups

abbrev pub entry_id : Entry → FileId
entry_id entry = (entry.dev, entry.ino)

-- The groups behind `groups.entry(source_id).or_insert(destination_id)`, and what is expected.
abbrev pub or_insert :
    FileId → FileId → Option FileId → List (FileId × FileId) → List (FileId × FileId)
or_insert source_id destination_id none groups = (source_id, destination_id) ∷ groups
or_insert source_id destination_id (some _) groups = groups

abbrev pub link_problem : RelPath → FileId → Option FileId → List VerificationMismatch
link_problem rel destination_id none = []
link_problem rel destination_id (some expected) =
    if id_eq expected destination_id
    then []
    else record { rel = rel; detail = hardlink_differs } ∷ []

-- The entry of the destination that the loop over hard links looks at.
abbrev pub linked_to : List (RelPath × Entry) → Entry → Option Entry
linked_to destination entry = if is_file entry then lookup entry.rel destination else none

-- The loop over hard links.
unfoldable pub link_problems :
    List (RelPath × Entry) → List (FileId × FileId) → List Entry → List VerificationMismatch
unfolding find_group
link_problems destination groups [] = []
link_problems destination groups (entry ∷ entries) = elim (linked_to destination entry) [
  | none ↦ link_problems destination groups entries
  | some found ↦
      let seen = find_group (entry_id entry) groups in
      link_problem entry.rel (entry_id found) seen
      ++ link_problems destination (or_insert (entry_id entry) (entry_id found) seen groups) entries
]

abbrev pub hardlink_entries : VerifyMode → SyncPlan → List Entry → List Entry
hardlink_entries changed plan chosen = planned_entries plan.actions
hardlink_entries no_check plan chosen = chosen
hardlink_entries all plan chosen = chosen

-- The loop over the entries of the destination that the source does not have.
unfoldable pub extra_loop :
    (ℕ → Outcome (Unit {0})) → ℕ → List RelPath → List Entry → Outcome (List VerificationMismatch)
extra_loop checkpoint n source [] = ok []
extra_loop checkpoint n source (entry ∷ entries) =
    checkpoint n >> extra_loop checkpoint (n + 1) source entries >>= λ others. ok (
      if contains source entry.rel
      then others
      else record { rel = entry.rel; detail = extra } ∷ others)

module _ (src dst : Tree) (metadata : MetadataOptions) (checkpoint : ℕ → Outcome (Unit {0}))
    (src_walk dst_walk : Outcome (List Entry)) where
  abbrev pub source_entries : VerifyMode → Outcome (List Entry)
  source_entries all = src_walk
  source_entries _ = ok []

  abbrev pub destination_entries : VerifyMode → SyncPlan → Outcome (List Entry)
  destination_entries all plan = dst_walk
  destination_entries _ plan = ok (live_entries dst.live metadata.hard_links plan.actions)

  abbrev pub extras : VerifyMode → ℕ → List Entry → List Entry → Outcome (List VerificationMismatch)
  extras all n source found = extra_loop checkpoint n (rels source) found
  extras _ n source found = ok []

  -- Behind the two walks: the three loops, over the destination without `.ripsync`.
  unfoldable pub verify_found :
      VerifyMode → SyncPlan → List Entry → List Entry → Outcome VerificationSummary
  unfolding compare_loop link_problems extra_loop collect retain
  verify_found mode plan source found =
      let destination = collect [] (retain found) in
      let chosen = selected mode plan source in
      compare_loop src dst metadata checkpoint 1 destination chosen >>= λ problems.
      extras mode (1 + length chosen) source (retain found) >>= λ others. ok (record {
        checked = length chosen;
        mismatches =
            problems
            ++ ((if metadata.hard_links
                  then link_problems destination [] (hardlink_entries mode plan chosen)
                  else [])
                ++ others);
      })

  abbrev pub verify_mode : VerifyMode → SyncPlan → Outcome VerificationSummary
  verify_mode mode plan = checkpoint 0 >> source_entries mode >>= λ source.
      destination_entries mode plan >>= λ found. verify_found mode plan source found

  unfoldable pub verify : SyncPlan → VerifyMode → Outcome VerificationSummary
  unfolding verify_found
  verify plan no_check = ok (record { checked = 0; mismatches = [] })
  verify plan changed = verify_mode changed plan
  verify plan all = verify_mode all plan
