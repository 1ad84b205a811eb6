-- ===== src/Plan/Tests.antt =====
-- Runs of the planner's theorems on two small trees.
use ripsync.Prelude.{
  ◌≡◌, refl, true, false, not, ◌&&◌, List, [], ◌∷◌, Option, some, none, ok, list_eq,
}
use ripsync.Prelude.Int.{pos}
use ripsync.Paths.{RelPath, contains, starts_with}
use ripsync.Entries.{EntryKind, Entry, skip, PlannedAction, SyncPlan}
use ripsync.Index.Classify.{Live}
use ripsync.Plan.{
  PlanOptions, World, retain, rels, FileId, dst_walk, plan_from_walk, build_plan,
  enforce_hardlink_actions, ripsync_dir,
}
use ripsync.Plan.Deletions.{deletion_rels, ChildrenFirst}
use ripsync.Plan.Hardlinks.{entries_of, IsLinked, enforce_hardlink_actions-IsLinked}
use ripsync.Plan.Build.{
  build_plan-entries, build_plan-nonempty, build_plan-deletions, build_plan-ChildrenFirst,
}

abbrev path_a : RelPath
path_a = (97 ∷ []) ∷ []

abbrev path_d : RelPath
path_d = (100 ∷ []) ∷ []

abbrev path_db : RelPath
path_db = (100 ∷ []) ∷ (98 ∷ []) ∷ []

abbrev entry_at : RelPath → EntryKind → Entry
entry_at rel kind = record {
  rel = rel;
  kind = kind;
  len = 3;
  mtime = record { unix_seconds = pos 5; nanoseconds = 0 };
  mode = 0o644;
  ino = 1;
  dev = 1;
  uid = 0;
  gid = 0;
}

abbrev tree : Live
tree = record { meta_min = λ rel. none; read_link = λ rel. none; hash_file = λ rel. none }

abbrev in_src : List Entry
in_src = entry_at path_a EntryKind.file ∷ []

abbrev in_dst : List Entry
in_dst =
    entry_at path_a EntryKind.file
    ∷ entry_at path_d EntryKind.dir
    ∷ entry_at path_db EntryKind.file
    ∷ entry_at ripsync_dir EntryKind.dir
    ∷ []

abbrev world : World
world = record {
  src_root = [];
  src = tree;
  dst = tree;
  walk_src = ok in_src;
  walk_dst = ok in_dst;
  dst_exists = true;
  manifest = none;
  checkpoint = λ _. ok tt;
}

abbrev mirror : PlanOptions
mirror = record { checksum = false; delete = true; threads = 0; index = false; hard_links = true }

abbrev plan : SyncPlan
plan = plan_from_walk world mirror (retain in_src) (retain in_dst)

built : build_plan world mirror ≡ ok plan
unfolding build_plan retain starts_with list_eq
built = refl

build_plan-entries_example :
    (walked : List Entry) × (world.walk_src ≡ ok walked) × (entries_of plan.actions ≡ retain walked)
build_plan-entries_example = build_plan-entries world mirror plan built

build_plan-nonempty_example : ¬ (entries_of plan.actions ≡ [])
build_plan-nonempty_example = build_plan-nonempty world mirror plan refl built

build_plan-deletions_example :
    (walked found : List Entry) × (world.walk_src ≡ ok walked)
    × (dst_walk world mirror ≡ ok found)
    × ((p : RelPath)
        → contains (deletion_rels plan.deletions) p
          ≡ contains (rels found) p
            && not (contains (rels walked) p)
            && not (starts_with p ripsync_dir))
build_plan-deletions_example = build_plan-deletions world mirror plan refl built

build_plan-ChildrenFirst_example : ChildrenFirst plan.deletions
build_plan-ChildrenFirst_example = build_plan-ChildrenFirst world mirror plan built

abbrev two_names : List PlannedAction
two_names =
    record { entry = entry_at path_a EntryKind.file; action = skip }
    ∷ record { entry = entry_at path_db EntryKind.file; action = skip }
    ∷ []

abbrev identity : RelPath → Option FileId
identity [] = none
identity (_ ∷ []) = some (1, 4)
identity (_ ∷ _ ∷ _) = some (1, 5)

enforce_hardlink_actions-IsLinked_example :
    IsLinked identity (enforce_hardlink_actions identity two_names)
enforce_hardlink_actions-IsLinked_example = enforce_hardlink_actions-IsLinked identity two_names
