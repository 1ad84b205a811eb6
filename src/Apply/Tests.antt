-- ===== src/Apply/Tests.antt =====
-- Runs of the theorems on applying a plan that copies a file and a link to it and deletes another.
use ripsync.Prelude.{
  ℕ, suc, ◌+◌, ◌≡◌, ◌&&◌, refl, true, false, none, some, List, [], ◌∷◌, length, ltb, leb, ◌/◌, All,
  ok, ◌⊎◌,
}
use ripsync.Prelude.Int.{pos}
use ripsync.Errors.{Outcome}
use ripsync.Entries.{EntryKind, Entry, Action, copy, update, skip, SyncPlan}
use ripsync.Disk.{AbsPath, Disk}
use ripsync.Meta.{canonical_root}
use ripsync.Plan.{count, bytes_to_transfer}
use ripsync.Apply.{Backend, ReflinkMode, FsyncMode, ApplyOptions, Work, divide, apply_dry}
use ripsync.Apply.Backends.{
  auto_uring_min_files, auto_uring_median_max, below, sizes_of, many_small_files,
  many_small_files-below,
}
use ripsync.Apply.DryRun.{apply_dry-count}
use ripsync.Apply.Division.{Origin, divide-Origin}
use ripsync.Apply.Division.First.{Copies}
use ripsync.Apply.Division.Lists.{Divided}
use ripsync.Apply.Entries.{Calls}
use ripsync.Apply.Deleting.{Removal, delete_entry, delete_entry-Removal}
use ripsync.Apply.Phases.{Run, apply_real}
use ripsync.Apply.Counting.{counted}
use ripsync.Apply.Tally.{apply_real-counted}

abbrev a_file : Entry
a_file = record {
  rel = (97 ∷ []) ∷ [];
  kind = EntryKind.file;
  len = 3;
  mtime = record { unix_seconds = pos 5; nanoseconds = 7 };
  mode = 0o644;
  ino = 1;
  dev = 1;
  uid = 0;
  gid = 0;
}

abbrev plan : SyncPlan
plan = record {
  actions =
      record { entry = a_file; action = copy }
      ∷ record { entry = record a_file { rel = (98 ∷ []) ∷ [] }; action = update }
      ∷ [];
  deletions = record { rel = (99 ∷ []) ∷ []; is_dir = false } ∷ [];
}

apply_dry-count_example :
    apply_dry (λ n. ok tt) plan
    ≡ ok (record {
      copied = count copy plan.actions;
      updated = count update plan.actions;
      skipped = count skip plan.actions;
      deleted = 1;
      errors = 0;
      bytes = bytes_to_transfer plan.actions;
    })
apply_dry-count_example = apply_dry-count (λ n. ok tt) (λ n. refl) plan

divide-Origin_example :
    (work : Work) × (divide true [] plan.actions ≡ ok work)
    × Divided plan.actions work
    × Copies true [] plan.actions work.files
    × All (Origin plan.actions) work.hardlinks
divide-Origin_example = divide-Origin true plan.actions

abbrev two_files : List (Entry × Action)
two_files = (a_file, copy) ∷ (a_file, copy) ∷ []

many_small_files-below_example :
    many_small_files two_files
    ≡ leb auto_uring_min_files (length two_files)
      && ltb (length two_files / 2) (below auto_uring_median_max (sizes_of two_files))
many_small_files-below_example = many_small_files-below two_files

-- A disk that counts the calls that change it.
abbrev counting : Disk ℕ
counting = record {
  exists = λ s p. true;
  canonicalize = λ s p. ok p;
  is_dir_at = λ s p. some false;
  is_symlink_at = λ s p. some false;
  read = λ s p. none;
  create_dir_all = λ s p. (true, suc s);
  remove_dir = λ s p. (true, suc s);
  remove_dir_all = λ s p. (true, suc s);
  remove_file = λ s p. (true, suc s);
  write = λ s p bytes. (true, suc s);
  rename = λ s p q. (true, suc s);
  symlink = λ s t p. (true, suc s);
  set_mode = λ s p m. suc s;
  set_mtime = λ s p t. suc s;
  set_symlink_mtime = λ s p t. suc s;
  random = λ s. (7, suc s);
}

abbrev answers : List (AbsPath × AbsPath × ℕ) → List (Outcome ℕ)
answers [] = []
answers (job ∷ jobs) = ok 3 ∷ answers jobs

length-answers : (jobs : List (AbsPath × AbsPath × ℕ)) → length (answers jobs) ≡ length jobs
length-answers [] = refl
length-answers (job ∷ jobs) = λ i. suc (length-answers jobs i)

abbrev calls : Calls ℕ
calls = record {
  set_owner_group = λ s p e. (ok tt, suc s);
  set_mode = λ s p e. (ok tt, suc s);
  copy_xattrs = λ s p q. (ok tt, suc s);
  set_mtime = λ s p e. (ok tt, suc s);
  sync_all = λ s p. suc s;
  copy_file = λ s p q. (ok 3, suc s);
  copy_batch = λ s jobs. (answers jobs, suc s);
  hard_link = λ s p q. (true, suc s);
  not_found = λ s p. false;
  tmp_name = λ n. n ∷ [];
  link_tmp_name = λ name. name;
}

abbrev options : ApplyOptions
options = record {
  dry_run = false;
  yes = true;
  delete = true;
  threads = 2;
  reflink = ReflinkMode.auto;
  fsync = FsyncMode.auto;
  backend = Backend.uring;
  metadata = record {
    hard_links = true;
    sparse = false;
    xattrs = true;
    acls = true;
    owner = true;
    group = true;
  };
  copy_buffer = none;
}

abbrev root : AbsPath
root = (100 ∷ []) ∷ []

delete_entry-Removal_example :
    ((delete_entry counting calls root ((99 ∷ []) ∷ []) false 0).1 ≡ 0)
    ⊎ Removal counting calls root
        ((99 ∷ []) ∷ [])
        false
        0
        (delete_entry counting calls root ((99 ∷ []) ∷ []) false 0).1
delete_entry-Removal_example = delete_entry-Removal counting calls root ((99 ∷ []) ∷ []) false 0

apply_real-counted_example :
    (after : Run ℕ) × (apply_real counting calls options (λ n. ok tt) ((115 ∷ []) ∷ []) plan root 0
      ≡ ok after)
    × (counted after.stats ≡ 2 + 1)
unfolding canonical_root
apply_real-counted_example =
    apply_real-counted counting calls options (λ n. ok tt) ((115 ∷ []) ∷ []) (λ n. refl)
      (λ s jobs. length-answers jobs) plan root root 0 0 refl
