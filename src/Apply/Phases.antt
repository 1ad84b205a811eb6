-- ===== src/Apply/Phases.antt =====
-- apply.rs: the phases of `apply_real`, one after the other. A batch whose entries run in parallel is
-- gone through in order, and a cancellation is seen at the checkpoints only: a worker that sees one
-- leaves its entry, and the checkpoint behind its batch ends the run.
use ripsync.Prelude.{
  ℕ, ◌+◌, ◌-◌, ◌*◌, max, min, ◌==◌, Bool, false, not, ◌&&◌, Option, none, some, List, [], ◌∷◌, ◌++◌,
  length, if◌then◌else◌, ok, err, ◌>>=◌, ◌>>◌,
}
use ripsync.Errors.{Outcome, io}
use ripsync.Paths.{RelPath, contains}
use ripsync.Entries.{Entry, Action, Deletion, SyncPlan}
use ripsync.Disk.{AbsPath, Disk, parent}
use ripsync.Meta.{absolute, canonical_root}
use ripsync.Report.{Stats, no_stats}
use ripsync.Apply.{
  Backend, FsyncMode, ApplyOptions, bump_action, add_bytes, count_deleted, report_fail, Work,
  divide,
}
use ripsync.Apply.Backends.{resolve_backend}
use ripsync.Apply.Entries.{
  Calls, then_on, prepare_paths, finalize_file, copied_to, copy_file_atomic, create_directory,
  create_hardlink, create_symlink,
}
use ripsync.Apply.Deleting.{delete_entry}

-- A run: the number of its next checkpoint, the file system and the tally.
pub record Run (S : Type 0) : Type 0 where
  pub at : ℕ
  pub disk_state : S
  pub stats : Stats

-- `usize::MAX`
abbrev pub usize_max : ℕ
usize_max = 18446744073709551615

-- An entry that is done, or whose failure is reported.
abbrev pub settled : {S : Type 0} {A : Type 0} → (A → Stats → Stats) → Run S → Outcome A × S → Run S
settled count r (ok a, s) = record r { disk_state = s; stats = count a r.stats }
settled count r (err e, s) = record r { disk_state = s; stats = report_fail r.stats }

module _ {S : Type 0} (disk : Disk S) (calls : Calls S) (opts : ApplyOptions)
    (checkpoint : ℕ → Outcome (Unit {0})) (src : AbsPath) where
  abbrev pub check : Run S → Outcome (Run S)
  check r = checkpoint r.at >> ok (record r { at = r.at + 1 })

  -- A loop with a checkpoint before each of its entries.
  unfoldable pub each_checked :
      {X : Type 0} → (X → Run S → Run S) → List X → Run S → Outcome (Run S)
  each_checked step [] r = ok r
  each_checked step (x ∷ xs) r = check r >>= λ r. each_checked step xs (step x r)

  module _ (root : AbsPath) where
    abbrev pub make_directory : Entry → Run S → Run S
    make_directory entry r =
        settled bump_action r (create_directory disk calls opts src root entry r.disk_state)

    -- A checkpoint behind the batch of one depth, and one before the next.
    abbrev pub at_depth : Option ℕ → ℕ → Run S → Outcome (Run S)
    at_depth none depth r = check r
    at_depth (some last) depth r = if last == depth then ok r else check r >>= check

    unfoldable pub create_directories : Option ℕ → List Entry → Run S → Outcome (Run S)
    unfolding create_directory
    create_directories none [] r = ok r
    create_directories (some last) [] r = check r
    create_directories last (entry ∷ dirs) r = at_depth last (length entry.rel) r >>= λ r.
        create_directories (some (length entry.rel)) dirs (make_directory entry r)

    abbrev pub count_copy : Action → ℕ → Stats → Stats
    count_copy action bytes stats = bump_action action (add_bytes bytes stats)

    abbrev pub copy_one : Entry × Action → Run S → Run S
    copy_one (entry, action) r =
        settled (count_copy action) r (copy_file_atomic disk calls opts src root entry r.disk_state)

    abbrev pub chunk_size : ℕ
    chunk_size = min (max opts.threads 1 * 2) usize_max

    -- A checkpoint where `here` says so.
    abbrev pub check_if : Bool → Run S → Outcome (Run S)
    check_if here r = if here then check r else ok r

    -- With `left` more files in the chunk: a checkpoint before each chunk and one behind it.
    unfoldable pub copy_files_portable : ℕ → List (Entry × Action) → Run S → Outcome (Run S)
    unfolding copy_file_atomic
    copy_files_portable left [] r = check_if (not (left == 0)) r
    copy_files_portable left (file ∷ files) r =
        let rest = (if left == 0 then chunk_size else left) - 1 in
        check_if (left == 0) r >>= λ r1.
        check_if (rest == 0) (copy_one file r1) >>= λ r2. copy_files_portable rest files r2

    -- The files whose paths are prepared for the ring, each with its target and temporary name.
    abbrev pub Prepared : Type 0
    Prepared = Entry × Action × AbsPath × AbsPath

    abbrev pub keep_prepared :
        Entry
        → Action
        → Outcome (AbsPath × AbsPath) × S
        → Run S
        → List Prepared × Run S
        → List Prepared × Run S
    keep_prepared entry action (ok (target, tmp), s) r (rest, last) =
        ((entry, action, target, tmp) ∷ rest, last)
    keep_prepared entry action (err e, s) r (rest, last) = (rest, last)

    abbrev pub prepared_run : Run S → Outcome (AbsPath × AbsPath) × S → Run S
    prepared_run r outcome = settled (λ _ stats. stats) r outcome

    unfoldable pub prepare_files : List (Entry × Action) → Run S → List Prepared × Run S
    unfolding prepare_paths
    prepare_files [] r = ([], r)
    prepare_files ((entry, action) ∷ files) r =
        let outcome = prepare_paths disk calls opts src root entry r.disk_state in
        keep_prepared entry action outcome r (prepare_files files (prepared_run r outcome))

    abbrev pub jobs_of : List Prepared → List (AbsPath × AbsPath × ℕ)
    jobs_of [] = []
    jobs_of ((entry, action, target, tmp) ∷ prepared) =
        (src ++ entry.rel, tmp, entry.len) ∷ jobs_of prepared

    abbrev pub copied_again : Entry → AbsPath → AbsPath → Outcome ℕ × S → Outcome ℕ × S
    copied_again entry target tmp (err e, s) = (err (io (absolute (src ++ entry.rel))), s)
    copied_again entry target tmp (ok bytes, s) =
        then_on (finalize_file disk calls opts src root (src ++ entry.rel) target tmp entry s)
          (λ _ s. (ok bytes, s))

    -- A file that the ring copied is finished; one that it rejected is copied again.
    abbrev pub uring_outcome : Prepared → Outcome ℕ → S → Outcome ℕ × S
    uring_outcome (entry, action, target, tmp) (ok bytes) s =
        copied_to disk calls opts src root (src ++ entry.rel) target tmp entry (ok bytes, s)
    uring_outcome (entry, action, target, tmp) (err e) s =
        copied_again entry target tmp
          (calls.copy_file (disk.remove_file s tmp).1 (src ++ entry.rel) tmp)

    abbrev pub finalize_batch : List Prepared → List (Outcome ℕ) → Run S → Run S
    finalize_batch [] results r = r
    finalize_batch (p ∷ prepared) [] r = r
    finalize_batch (p ∷ prepared) (result ∷ results) r =
        finalize_batch prepared results
          (settled (count_copy p.1) r (uring_outcome p result r.disk_state))

    unfoldable pub copy_files_uring : List (Entry × Action) → Run S → Run S
    unfolding prepare_files finalize_file
    copy_files_uring files r =
        let prepared = prepare_files files r in
        let batch = calls.copy_batch prepared.1.disk_state (jobs_of prepared.0) in
        finalize_batch prepared.0 batch.0 (record prepared.1 { disk_state = batch.1 })

    abbrev pub uses_ring : Backend → Bool
    uses_ring Backend.uring = not opts.metadata.sparse
    uses_ring Backend.auto = false
    uses_ring Backend.portable = false

    unfoldable pub copy_files : Backend → List (Entry × Action) → Run S → Outcome (Run S)
    unfolding copy_files_uring copy_files_portable
    copy_files backend files r =
        if uses_ring backend
        then (check r >>= λ r. check (copy_files_uring files r))
        else copy_files_portable 0 files r

    abbrev pub link_one : Entry × Action × RelPath → Run S → Run S
    link_one (entry, action, canonical) r =
        settled (λ _. bump_action action) r
          (create_hardlink disk calls opts src root entry canonical r.disk_state)

    abbrev pub symlink_one : Entry × Action × List ℕ → Run S → Run S
    symlink_one (entry, action, target) r =
        settled (λ _. bump_action action) r
          (create_symlink disk calls opts src root entry target r.disk_state)

    abbrev pub set_dir_mtime : Entry → Run S → Run S
    set_dir_mtime entry r = record r {
      disk_state = (calls.set_mtime r.disk_state (root ++ entry.rel) entry).1;
    }

    abbrev pub delete_one : Deletion → Run S → Run S
    delete_one del r =
        settled (λ _. count_deleted) r
          (delete_entry disk calls root del.rel del.is_dir r.disk_state)

    abbrev pub reversed : List Entry → List Entry → List Entry
    reversed done [] = done
    reversed done (entry ∷ entries) = reversed (entry ∷ done) entries

    -- The set of directories that `fsync_touched_dirs` syncs.
    abbrev pub add_target : AbsPath → List AbsPath → List AbsPath
    add_target path targets = if contains targets path then targets else path ∷ targets

    abbrev pub add_parent : Option AbsPath → List AbsPath → List AbsPath
    add_parent none targets = targets
    add_parent (some dir) targets = add_target dir targets

    unfoldable pub dir_targets : List Entry → List AbsPath
    unfolding contains
    dir_targets [] = root ∷ []
    dir_targets (entry ∷ dirs) = add_target (root ++ entry.rel) (dir_targets dirs)

    unfoldable pub touched_dirs : List Entry → List (Entry × Action) → List AbsPath
    unfolding contains parent dir_targets
    touched_dirs dirs [] = dir_targets dirs
    touched_dirs dirs ((entry, action) ∷ files) =
        add_parent (parent (root ++ entry.rel)) (touched_dirs dirs files)

    abbrev pub sync_each : List AbsPath → S → S
    sync_each [] s = s
    sync_each (dir ∷ targets) s = sync_each targets (calls.sync_all s dir)

    abbrev pub sync_touched : Work → Run S → Run S
    sync_touched work r = record r {
      disk_state = sync_each (touched_dirs work.dirs work.files) r.disk_state;
    }

    abbrev pub fsync_touched_dirs : FsyncMode → Work → Run S → Outcome (Run S)
    fsync_touched_dirs FsyncMode.auto work r = check r >>= λ r. ok (sync_touched work r)
    fsync_touched_dirs FsyncMode.always work r = ok r
    fsync_touched_dirs FsyncMode.never work r = ok r

    abbrev pub run_deletions : List Deletion → Run S → Outcome (Run S)
    run_deletions deletions r =
        if opts.delete && opts.yes then each_checked delete_one deletions r else ok r

    -- The phases of `apply_real` behind the division of the work.
    unfoldable pub run_phases : SyncPlan → Work → Run S → Outcome (Run S)
    unfolding create_directories copy_files each_checked touched_dirs
    run_phases plan work r =
        check r
        >>= create_directories none work.dirs
        >>= check
        >>= copy_files (resolve_backend opts work.files) work.files
        >>= each_checked link_one work.hardlinks
        >>= each_checked symlink_one work.symlinks
        >>= each_checked set_dir_mtime (reversed [] work.mtime_dirs)
        >>= run_deletions plan.deletions
        >>= fsync_touched_dirs opts.fsync work
        >>= check

  abbrev pub skip_all : ℕ → Stats → Stats
  skip_all n stats = record stats { skipped = stats.skipped + n }

  -- `apply_plan_controlled` where `dry_run` is not set.
  unfoldable pub apply_real : SyncPlan → AbsPath → S → Outcome (Run S)
  unfolding run_phases divide canonical_root
  apply_real plan dst s =
      check (record { at = 0; disk_state = s; stats = no_stats }) >>= check >>= λ r.
      canonical_root disk r.disk_state dst >>= λ (root, s).
      divide opts.metadata.hard_links [] plan.actions >>= λ work.
      run_phases root plan work (record r { disk_state = s; stats = skip_all work.skipped r.stats })
