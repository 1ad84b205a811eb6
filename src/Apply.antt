-- ===== src/Apply.antt =====
-- crates/ripsync-core/src/apply.rs: the options, the tally, a dry run, and how the work of a plan is
-- divided. Events are not modelled. The n-th checkpoint of a run answers `checkpoint n`.
pub mod Backends
pub mod Entries
pub mod Phases
pub mod DryRun
pub mod Division
pub mod Deleting
pub mod Counting
pub mod PhaseCounts
pub mod Tally
mod Tests
use ripsync.Prelude.{
  ℕ, ◌+◌, Bool, true, false, not, ◌&&◌, Option, none, some, List, [], ◌∷◌, if◌then◌else◌, ok, err,
  ◌>>=◌, ◌>>◌,
}
use ripsync.Errors.{Outcome}
use ripsync.Paths.{RelPath}
use ripsync.Entries.{
  EntryKind, Entry, is_file, is_dir, is_skip, Action, copy, update, skip, PlannedAction, Deletion,
  SyncPlan,
}
use ripsync.Plan.{FileId, id_eq}
use ripsync.Report.{Stats, no_stats}
use ripsync.Meta.{check_relative, path_of}
use ripsync.Verify.{MetadataOptions}

pub data Backend : Type 0 where
  auto uring portable : Backend

-- `ReflinkMode` and `FsyncMode` of copy.rs.
pub data ReflinkMode : Type 0 where
  auto always never : ReflinkMode

pub data FsyncMode : Type 0 where
  auto always never : FsyncMode

pub record ApplyOptions : Type 0 where
  pub dry_run : Bool
  pub yes : Bool
  pub delete : Bool
  pub threads : ℕ
  pub reflink : ReflinkMode
  pub fsync : FsyncMode
  pub backend : Backend
  pub metadata : MetadataOptions
  pub copy_buffer : Option ℕ

-- `Counters::bump_action`, and the other counters.
abbrev pub bump_action : Action → Stats → Stats
bump_action copy stats = record stats { copied = stats.copied + 1 }
bump_action update stats = record stats { updated = stats.updated + 1 }
bump_action skip stats = record stats { skipped = stats.skipped + 1 }

abbrev pub add_bytes : ℕ → Stats → Stats
add_bytes n stats = record stats { bytes = stats.bytes + n }

abbrev pub count_deleted : Stats → Stats
count_deleted stats = record stats { deleted = stats.deleted + 1 }

abbrev pub report_fail : Stats → Stats
report_fail stats = record stats { errors = stats.errors + 1 }

-- One planned action of a dry run.
abbrev pub planned_stats : PlannedAction → Stats → Stats
planned_stats pa stats =
    let bumped = bump_action pa.action stats in
    if not (is_skip pa.action) && is_file pa.entry then add_bytes pa.entry.len bumped else bumped

unfoldable pub dry_actions :
    (ℕ → Outcome (Unit {0})) → ℕ → List PlannedAction → Stats → Outcome (ℕ × Stats)
dry_actions checkpoint n [] stats = ok (n, stats)
dry_actions checkpoint n (pa ∷ actions) stats =
    checkpoint n >> dry_actions checkpoint (n + 1) actions (planned_stats pa stats)

unfoldable pub dry_deletions : (ℕ → Outcome (Unit {0})) → ℕ → List Deletion → Stats → Outcome Stats
dry_deletions checkpoint n [] stats = ok stats
dry_deletions checkpoint n (del ∷ deletions) stats =
    checkpoint n >> dry_deletions checkpoint (n + 1) deletions (count_deleted stats)

-- `apply_plan_controlled` where `dry_run` is set.
unfoldable pub apply_dry : (ℕ → Outcome (Unit {0})) → SyncPlan → Outcome Stats
unfolding dry_actions dry_deletions
apply_dry checkpoint plan =
    checkpoint 0 >> dry_actions checkpoint 1 plan.actions no_stats >>= λ (n, stats).
    dry_deletions checkpoint n plan.deletions stats

-- The lists that `apply_real` divides the actions into, and how many it skips.
pub record Work : Type 0 where
  pub dirs : List Entry
  pub mtime_dirs : List Entry
  pub files : List (Entry × Action)
  pub hardlinks : List (Entry × Action × RelPath)
  pub symlinks : List (Entry × Action × List ℕ)
  pub skipped : ℕ

abbrev pub no_work : Work
no_work = record {
  dirs = [];
  mtime_dirs = [];
  files = [];
  hardlinks = [];
  symlinks = [];
  skipped = 0;
}

abbrev pub note_dir : Entry → Work → Work
note_dir entry work =
    if is_dir entry then record work { mtime_dirs = entry ∷ work.mtime_dirs } else work

abbrev pub by_kind : Entry → EntryKind → Action → Work → Work
by_kind entry EntryKind.dir action work = record work { dirs = entry ∷ work.dirs }
by_kind entry EntryKind.file action work = record work { files = (entry, action) ∷ work.files }
by_kind entry (EntryKind.symlink target) action work = record work {
  symlinks = (entry, action, target) ∷ work.symlinks;
}

abbrev pub to_do : Entry → Action → Option RelPath → Work → Work
to_do entry action (some canonical) work = record work {
  hardlinks = (entry, action, canonical) ∷ work.hardlinks;
}
to_do entry action none work = by_kind entry entry.kind action work

-- What one action adds to the lists, where `canonical` is the first file of its inode.
abbrev pub place : PlannedAction → Option RelPath → Work → Work
place pa canonical work = note_dir pa.entry (
    if is_skip pa.action
    then record work { skipped = work.skipped + 1 }
    else to_do pa.entry pa.action canonical work)

-- `first_hardlink.get(&id)`
unfoldable pub first_of : FileId → List (FileId × RelPath) → Option RelPath
first_of id [] = none
first_of id ((key, rel) ∷ first) = if id_eq key id then some rel else first_of id first

abbrev pub source_id : PlannedAction → FileId
source_id pa = (pa.entry.dev, pa.entry.ino)

abbrev pub is_linkable : Bool → PlannedAction → Bool
is_linkable hard_links pa = hard_links && is_file pa.entry

abbrev pub canonical_of : Bool → PlannedAction → List (FileId × RelPath) → Option RelPath
canonical_of hard_links pa first =
    if is_linkable hard_links pa then first_of (source_id pa) first else none

abbrev pub seen_first :
    Bool → PlannedAction → Option RelPath → List (FileId × RelPath) → List (FileId × RelPath)
seen_first hard_links pa (some _) first = first
seen_first hard_links pa none first =
    if is_linkable hard_links pa then (source_id pa, pa.entry.rel) ∷ first else first

-- The loop of `apply_real` over the actions.
unfoldable pub divide : Bool → List (FileId × RelPath) → List PlannedAction → Outcome Work
unfolding first_of check_relative
divide hard_links first [] = ok no_work
divide hard_links first (pa ∷ actions) =
    let canonical = canonical_of hard_links pa first in
    (if is_skip pa.action then ok tt else check_relative (path_of pa.entry.rel))
    >> divide hard_links (seen_first hard_links pa canonical first) actions
    >>= λ work. ok (place pa canonical work)
