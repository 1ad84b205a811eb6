-- ===== src/Verify/Tests.antt =====
-- A run of the verification's theorem on one file.
use ripsync.Prelude.{◌≡◌, refl, true, List, [], ◌∷◌, some, none, list_eq, ok, length}
use ripsync.Prelude.Int.{pos}
use ripsync.Paths.{RelPath, lookup, insert, path_eq, starts_with, contains}
use ripsync.Errors.{Outcome}
use ripsync.Entries.{EntryKind, Entry, SyncPlan}
use ripsync.Plan.{ripsync_dir}
use ripsync.Verify.{
  all, missing, VerificationSummary, MetadataOptions, Tree, compare_content, compare_found,
  compare_entry, compare_loop,
}
use ripsync.Verify.Run.{verify}
use ripsync.Verify.Run.Whole.{Mirrors, verify-Mirrors, verify-ripsync_dir}

abbrev a_file : Entry
a_file = record {
  rel = (97 ∷ []) ∷ [];
  kind = EntryKind.file;
  len = 3;
  mtime = record { unix_seconds = pos 5; nanoseconds = 7 };
  mode = 0o644;
  ino = 1;
  dev = 1;
  uid = 0;
  gid = 0;
}

abbrev tree : Tree
tree = record {
  live = record {
    meta_min = λ rel. none;
    read_link = λ rel. none;
    hash_file = λ rel. some (4 ∷ 2 ∷ []);
  };
  sparse_blocks = λ rel. some 8;
  extended_attributes = λ rel. none;
}

abbrev everything : MetadataOptions
everything = record {
  hard_links = true;
  sparse = true;
  xattrs = true;
  acls = true;
  owner = true;
  group = true;
}

abbrev destination : List (RelPath × Entry)
destination = (a_file.rel, a_file) ∷ []

clean : compare_loop tree tree everything (λ n. ok tt) 0 destination (a_file ∷ []) ≡ ok []
unfolding compare_loop compare_entry compare_found compare_content lookup path_eq list_eq
clean = refl

abbrev no_plan : SyncPlan
no_plan = record { actions = []; deletions = [] }

abbrev clean_summary : VerificationSummary
clean_summary = record { checked = 1; mismatches = [] }

verified :
    verify tree tree everything (λ n. ok tt) (ok (a_file ∷ [])) (ok (a_file ∷ [])) no_plan all
    ≡ ok clean_summary
unfolding verify compare_loop compare_entry compare_found compare_content lookup path_eq list_eq
    insert contains
verified = refl

verify-Mirrors_example :
    (source found : List Entry) × (◌≡◌ {A = Outcome (List Entry)} (ok (a_file ∷ [])) (ok source))
    × (◌≡◌ {A = Outcome (List Entry)} (ok (a_file ∷ [])) (ok found))
    × Mirrors tree tree everything source found
    × (1 ≡ length source)
verify-Mirrors_example =
    verify-Mirrors tree tree everything (λ n. ok tt) (ok (a_file ∷ [])) (ok (a_file ∷ [])) no_plan
      clean_summary verified refl

abbrev index_dir : Entry
index_dir = record a_file { rel = ripsync_dir; kind = EntryKind.dir }

abbrev failed_summary : VerificationSummary
failed_summary = record {
  checked = 1;
  mismatches = record { rel = ripsync_dir; detail = missing } ∷ [];
}

failed :
    verify tree tree everything (λ n. ok tt) (ok (index_dir ∷ [])) (ok (index_dir ∷ [])) no_plan all
    ≡ ok failed_summary
unfolding verify compare_loop compare_entry compare_found compare_content lookup path_eq list_eq
    starts_with contains insert
failed = refl

verify-ripsync_dir_example : ¬ (failed_summary.mismatches ≡ [])
unfolding contains path_eq starts_with list_eq
verify-ripsync_dir_example =
    verify-ripsync_dir tree tree everything (λ n. ok tt) (ok (index_dir ∷ [])) (ok (index_dir ∷ []))
      no_plan (index_dir ∷ []) ripsync_dir failed_summary refl refl refl failed
