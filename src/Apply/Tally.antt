-- ===== src/Apply/Tally.antt =====
-- apply.rs: a run that is not cancelled comes to its end, whatever fails in it, and counts every action
-- and every deletion once.
use ripsync.Prelude.{
  ℕ, suc, ◌+◌, ◌≡◌, refl, ap, ◌∙◌, arith, ◌&&◌, none, List, [], ◌∷◌, length, if◌then◌else◌, ok, err,
  ◌>>=◌, ◌>>◌, Bool-cases, inl, inr,
}
use ripsync.Errors.{Outcome}
use ripsync.Entries.{Entry, Action, SyncPlan}
use ripsync.Disk.{AbsPath, Disk}
use ripsync.Meta.{canonical_root}
use ripsync.Report.{no_stats}
use ripsync.Apply.{Backend, ApplyOptions, bump_action, Work, divide}
use ripsync.Apply.Backends.{resolve_backend}
use ripsync.Apply.Division.Sizes.{divide-size_of}
use ripsync.Apply.Entries.{Calls, prepare_paths}
use ripsync.Apply.Phases.{
  Run, settled, check, count_copy, Prepared, keep_prepared, prepared_run, prepare_files, jobs_of,
  uring_outcome, finalize_batch, copy_files_uring, copy_files, link_one, symlink_one, set_dir_mtime,
  reversed, run_phases, skip_all, apply_real, uses_ring,
}
use ripsync.Apply.Counting.{
  counted, counted-bump_action, Counts, both, counted-settled, total, total_one, total_none,
}
use ripsync.Apply.PhaseCounts.{
  check-Counts, each_checked-Counts, copy_counted, then_step_end, copy_files_portable-Counts,
  create_directories-Counts, run_deletions-Counts, fsync-Counts,
}

module _ {S : Type 0} (disk : Disk S) (calls : Calls S) (opts : ApplyOptions)
    (checkpoint : ℕ → Outcome (Unit {0})) (src : AbsPath)
    (goes_on : (n : ℕ) → checkpoint n ≡ ok tt) where
  module _ (root : AbsPath) where
    -- Where the ring answers each job once.
    module _
        (answers : (s : S) (jobs : List (AbsPath × AbsPath × ℕ))
          → length (calls.copy_batch s jobs).0 ≡ length jobs) where
      abbrev Files : Type 0
      Files = List (Prepared disk calls opts checkpoint src root)

      keep_counted :
          (entry : Entry) (action : Action) (out : Outcome (AbsPath × AbsPath) × S) (r last : Run S)
          (rest : Files) (n : ℕ)
          → counted last.stats + length rest
            ≡ counted (prepared_run disk calls opts checkpoint src root r out).stats + n
          → counted
                (keep_prepared disk calls opts checkpoint src root entry action out r
                  (rest, last)).1.stats
              + length
                  (keep_prepared disk calls opts checkpoint src root entry action out r
                    (rest, last)).0
            ≡ counted r.stats + suc n
      keep_counted entry action (ok (target, tmp), s) r last rest n h = omega (arith, h)
      keep_counted entry action (err e, s) r last rest n h = omega (arith, h)

      counted-prepare_files :
          (files : List (Entry × Action)) (r : Run S)
          → counted (prepare_files disk calls opts checkpoint src root files r).1.stats
              + length (prepare_files disk calls opts checkpoint src root files r).0
            ≡ counted r.stats + length files
      unfolding prepare_files
      counted-prepare_files [] r = omega arith
      counted-prepare_files ((entry, action) ∷ files) r =
          let out = prepare_paths disk calls opts src root entry r.disk_state in
          let after = prepared_run disk calls opts checkpoint src root r out in
          keep_counted entry action out r _ _ (length files) (counted-prepare_files files after)

      counted-finalize_batch :
          (prepared : Files) (results : List (Outcome ℕ)) (r : Run S)
          → length results ≡ length prepared
          → counted (finalize_batch disk calls opts checkpoint src root prepared results r).stats
            ≡ counted r.stats + length prepared
      counted-finalize_batch [] results r h = omega arith
      counted-finalize_batch (p ∷ prepared) [] r h = absurd (omega (arith, h))
      counted-finalize_batch (p ∷ prepared) (result ∷ results) r h =
          let count = count_copy disk calls opts checkpoint src root p.1 in
          let out = uring_outcome disk calls opts checkpoint src root p result r.disk_state in
          let one =
            counted-settled count (copy_counted disk calls opts checkpoint src goes_on root p.1) r
              out in
          counted-finalize_batch prepared results (settled count r out) (omega (arith, h))
          ∙ omega (arith, one)

      length-jobs_of :
          (prepared : Files)
          → length (jobs_of disk calls opts checkpoint src root prepared) ≡ length prepared
      length-jobs_of [] = refl
      length-jobs_of (p ∷ prepared) = ap suc (length-jobs_of prepared)

      counted-copy_files_uring :
          (files : List (Entry × Action)) (r : Run S)
          → counted (copy_files_uring disk calls opts checkpoint src root files r).stats
            ≡ counted r.stats + length files
      unfolding copy_files_uring
      counted-copy_files_uring files r =
          let prepared = prepare_files disk calls opts checkpoint src root files r in
          counted-finalize_batch prepared.0 _ _ (
            answers prepared.1.disk_state (jobs_of disk calls opts checkpoint src root prepared.0)
            ∙ length-jobs_of prepared.0)
          ∙ counted-prepare_files files r

      copy_files-Counts :
          (backend : Backend) (files : List (Entry × Action))
          → Counts (copy_files disk calls opts checkpoint src root backend files) (length files)
      unfolding copy_files
      copy_files-Counts backend files = record {
        goes = λ r. elim (Bool-cases (uses_ring disk calls opts checkpoint src root backend)) [
          | inl t ↦ rw t (
              (then_step_end disk calls opts checkpoint src goes_on root (length files)
                  (copy_files_uring disk calls opts checkpoint src root files)
                  (counted-copy_files_uring files)).goes
                r)
          | inr f ↦ rw f (
              (copy_files_portable-Counts disk calls opts checkpoint src goes_on root 0 files).goes
                r)
        ];
      }

      run_phases-Counts :
          (plan : SyncPlan) (work : Work)
          → Counts (run_phases disk calls opts checkpoint src root plan work) (
              length work.dirs
              + length work.files
              + length work.hardlinks
              + length work.symlinks
              + (if opts.delete && opts.yes then length plan.deletions else 0))
      unfolding run_phases
      run_phases-Counts plan work =
          let deletions = if opts.delete && opts.yes then length plan.deletions else 0 in
          let d =
            both 0 (length work.dirs) (length work.dirs) (omega arith)
              (check-Counts disk calls opts checkpoint src goes_on)
              (create_directories-Counts disk calls opts checkpoint src goes_on root none
                work.dirs) in
          let f =
            both _ (length work.files) (length work.dirs + length work.files) (omega arith)
              (both _ 0 (length work.dirs) (omega arith) d
                (check-Counts disk calls opts checkpoint src goes_on))
              (copy_files-Counts (resolve_backend opts work.files) work.files) in
          let h =
            both _ _ (length work.dirs + length work.files + length work.hardlinks)
              (omega (arith, total_one work.hardlinks)) f
              (each_checked-Counts disk calls opts checkpoint src goes_on
                (link_one disk calls opts checkpoint src root) 1
                (λ link r.
                  counted-settled (λ _. bump_action link.1) (λ _. counted-bump_action link.1) r _)
                work.hardlinks) in
          let l =
            both _ _
              (length work.dirs + length work.files + length work.hardlinks + length work.symlinks)
              (omega (arith, total_one work.symlinks)) h
              (each_checked-Counts disk calls opts checkpoint src goes_on
                (symlink_one disk calls opts checkpoint src root) 1
                (λ link r.
                  counted-settled (λ _. bump_action link.1) (λ _. counted-bump_action link.1) r _)
                work.symlinks) in
          let dirs = reversed disk calls opts checkpoint src root [] work.mtime_dirs in
          let m =
            both _ _
              (length work.dirs + length work.files + length work.hardlinks + length work.symlinks)
              (omega (arith, total_none dirs)) l
              (each_checked-Counts disk calls opts checkpoint src goes_on
                (set_dir_mtime disk calls opts checkpoint src root) 0 (λ entry r. omega arith)
                dirs) in
          let all =
            length work.dirs
            + length work.files
            + length work.hardlinks
            + length work.symlinks
            + deletions in
          both _ _ all (omega arith)
            (both _ _ all (omega arith)
              (both _ _ all (omega arith) m
                (run_deletions-Counts disk calls opts checkpoint src goes_on root plan))
              (fsync-Counts disk calls opts checkpoint src goes_on root opts.fsync work))
            (check-Counts disk calls opts checkpoint src goes_on)

  -- A run that nobody cancels and whose root can be made comes to its end, whatever fails on the way,
  -- and its tally is complete: what was copied, updated, skipped, deleted and what failed are
  -- together as many as the actions of the plan and, where deletions are asked for and confirmed,
  -- its deletions; for every file system, where the ring answers each job once.
  pub apply_real-counted :
      ((s : S) (jobs : List (AbsPath × AbsPath × ℕ))
        → length (calls.copy_batch s jobs).0 ≡ length jobs)
      → (plan : SyncPlan) (dst root : AbsPath) (s made : S)
      → canonical_root disk s dst ≡ ok (root, made)
      → (after : Run S) × (apply_real disk calls opts checkpoint src plan dst s ≡ ok after)
        × (counted after.stats
            ≡ length plan.actions + (if opts.delete && opts.yes then length plan.deletions else 0))
  unfolding apply_real
  apply_real-counted answers plan dst root s made found =
      let (work, divided, size) = divide-size_of opts.metadata.hard_links plan.actions in
      let start : Run S = record { at = 0; disk_state = s; stats = no_stats } in
      let a : Run S = record { at = 2; disk_state = s; stats = no_stats } in
      let fa : check disk calls opts checkpoint src start >>= check disk calls opts checkpoint src
          ≡ ok a =
        ap
          (λ (o : Outcome (Unit {0})).
            o >> ok (record start { at = 1 }) >>= check disk calls opts checkpoint src)
          (goes_on 0)
        ∙ ap (λ (o : Outcome (Unit {0})). o >> ok a) (goes_on 1) in
      let (after, run, total) = (run_phases-Counts root answers plan work).goes (record a {
        disk_state = made;
        stats = skip_all disk calls opts checkpoint src work.skipped a.stats;
      }) in
      let phases : Run S → AbsPath → S → Work → Outcome (Run S) = λ r root s work.
        run_phases disk calls opts checkpoint src root plan work (record r {
          disk_state = s;
          stats = skip_all disk calls opts checkpoint src work.skipped r.stats;
        }) in
      (
        after,
        ap
              (λ (o : Outcome (Run S)). o >>= λ r.
                canonical_root disk r.disk_state dst >>= λ (root, s).
                divide opts.metadata.hard_links [] plan.actions >>= phases r root s)
              fa
            ∙ ap
                (λ (o : Outcome (AbsPath × S)). o >>= λ (root, s).
                  divide opts.metadata.hard_links [] plan.actions >>= phases a root s)
                found
            ∙ ap (λ (o : Outcome Work). o >>= phases a root made) divided
            ∙ run,
        omega (arith, total, size),
      )
