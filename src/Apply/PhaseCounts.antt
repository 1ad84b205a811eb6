-- ===== src/Apply/PhaseCounts.antt =====
-- apply.rs: what the phases count, one by one, where nobody cancels.
use ripsync.Prelude.{
  ℕ, ◌+◌, ◌-◌, ◌≡◌, refl, ap, ◌∙◌, arith, ◌==◌, Bool, true, false, not, ◌&&◌, Option, none, some,
  List, [], ◌∷◌, length, if◌then◌else◌, ok, ◌>>=◌, ◌>>◌, Bool-cases, inl, inr,
}
use mathlib.Core.Path.{subst}
use ripsync.Errors.{Outcome}
use ripsync.Entries.{Entry, Action, SyncPlan}
use ripsync.Disk.{AbsPath, Disk}
use ripsync.Report.{Stats}
use ripsync.Apply.{FsyncMode, ApplyOptions, bump_action, add_bytes, count_deleted, Work}
use ripsync.Apply.Entries.{Calls}
use ripsync.Apply.Phases.{
  Run, check, each_checked, at_depth, create_directories, count_copy, chunk_size, check_if,
  copy_files_portable, delete_one, sync_touched, fsync_touched_dirs, run_deletions, make_directory,
  copy_one,
}
use ripsync.Apply.Counting.{
  counted, counted-bump_action, Counts, both, then_step, nothing, counted-settled, total, total_one,
}

module _ {S : Type 0} (disk : Disk S) (calls : Calls S) (opts : ApplyOptions)
    (checkpoint : ℕ → Outcome (Unit {0})) (src : AbsPath)
    (goes_on : (n : ℕ) → checkpoint n ≡ ok tt) where
  pub check-Counts : Counts (check disk calls opts checkpoint src) 0
  check-Counts = record {
    goes = λ r. (
      record r { at = r.at + 1 },
      ap (λ (o : Outcome (Unit {0})). o >> ok (record r { at = r.at + 1 })) (goes_on r.at),
      omega arith,
    );
  }

  pub each_checked-Counts :
      {X : Type 0} (step : X → Run S → Run S) (n : ℕ)
      → ((x : X) (r : Run S) → counted (step x r).stats ≡ counted r.stats + n)
      → (xs : List X) → Counts (each_checked disk calls opts checkpoint src step xs) (total n xs)
  unfolding each_checked
  each_checked-Counts step n c [] = nothing
  each_checked-Counts step n c (x ∷ xs) = record {
    goes = λ r.
        let (a, fa, ca) = check-Counts.goes r in
        let (b, gb, cb) = (each_checked-Counts step n c xs).goes (step x a) in
        let one = c x a in
        (
          b,
          ap
                (λ (o : Outcome (Run S)).
                  o >>= λ r. each_checked disk calls opts checkpoint src step xs (step x r))
                fa
              ∙ gb,
          omega (arith, ca, cb, one),
        );
  }

  module _ (root : AbsPath) where
    pub directory_counted :
        (entry : Entry) (r : Run S)
        → counted (make_directory disk calls opts checkpoint src root entry r).stats
          ≡ counted r.stats + 1
    directory_counted entry r = counted-settled bump_action counted-bump_action r _

    pub at_depth-Counts :
        (last : Option ℕ) (depth : ℕ)
        → Counts (at_depth disk calls opts checkpoint src root last depth) 0
    at_depth-Counts none depth = check-Counts
    at_depth-Counts (some last) depth = record {
      goes = λ r. elim (Bool-cases (last == depth)) [
        | inl t ↦ rw t (nothing.goes r)
        | inr f ↦ rw f ((both 0 0 0 refl check-Counts check-Counts).goes r)
      ];
    }

    pub create_directories-Counts :
        (last : Option ℕ) (dirs : List Entry)
        → Counts (create_directories disk calls opts checkpoint src root last dirs) (length dirs)
    unfolding create_directories
    create_directories-Counts none [] = nothing
    create_directories-Counts (some last) [] = check-Counts
    create_directories-Counts none (entry ∷ dirs) =
        then_step (length dirs) (make_directory disk calls opts checkpoint src root entry)
          (at_depth-Counts none (length entry.rel)) (directory_counted entry)
          (create_directories-Counts (some (length entry.rel)) dirs)
    create_directories-Counts (some last) (entry ∷ dirs) =
        then_step (length dirs) (make_directory disk calls opts checkpoint src root entry)
          (at_depth-Counts (some last) (length entry.rel)) (directory_counted entry)
          (create_directories-Counts (some (length entry.rel)) dirs)

    pub copy_counted :
        (action : Action) (bytes : ℕ) (stats : Stats)
        → counted (count_copy disk calls opts checkpoint src root action bytes stats)
          ≡ counted stats + 1
    copy_counted action bytes stats =
        counted-bump_action action (add_bytes bytes stats) ∙ omega arith

    pub check_if-Counts :
        (here : Bool) → Counts (check_if disk calls opts checkpoint src root here) 0
    check_if-Counts true = check-Counts
    check_if-Counts false = nothing

    pub copy_files_portable-Counts :
        (left : ℕ) (files : List (Entry × Action))
        → Counts (copy_files_portable disk calls opts checkpoint src root left files) (length files)
    unfolding copy_files_portable
    copy_files_portable-Counts left [] = check_if-Counts (not (left == 0))
    copy_files_portable-Counts left (file ∷ files) =
        let rest =
          (if left == 0 then chunk_size disk calls opts checkpoint src root else left) - 1 in
        then_step (length files) (copy_one disk calls opts checkpoint src root file)
          (check_if-Counts (left == 0))
          (λ r.
            counted-settled (count_copy disk calls opts checkpoint src root file.1)
              (copy_counted file.1) r _)
          (both 0 (length files) (length files) (omega arith) (check_if-Counts (rest == 0))
            (copy_files_portable-Counts rest files))

    -- A part between two checkpoints.
    pub then_step_end :
        (n : ℕ) (step : Run S → Run S)
        → ((r : Run S) → counted (step r).stats ≡ counted r.stats + n)
        → Counts
            (λ r. check disk calls opts checkpoint src r >>= λ r.
              check disk calls opts checkpoint src (step r))
            n
    then_step_end n step c = record {
      goes = λ r.
          let (a, fa, ca) = check-Counts.goes r in
          let (b, gb, cb) = check-Counts.goes (step a) in
          let one = c a in
          (
            b,
            ap (λ (o : Outcome (Run S)). o >>= λ r. check disk calls opts checkpoint src (step r))
                  fa
                ∙ gb,
            omega (arith, ca, cb, one),
          );
    }

    pub run_deletions-Counts :
        (plan : SyncPlan)
        → Counts
            (run_deletions disk calls opts checkpoint src root plan.deletions)
            (if opts.delete && opts.yes then length plan.deletions else 0)
    run_deletions-Counts plan = record {
      goes = λ r. elim (Bool-cases (opts.delete && opts.yes)) [
        | inl t ↦ rw t (
            subst
              (λ n.
                (after : Run S) × (each_checked disk calls opts checkpoint src
                    (delete_one disk calls opts checkpoint src root) plan.deletions r
                  ≡ ok after)
                × (counted after.stats ≡ counted r.stats + n))
              (total_one plan.deletions)
              ((each_checked-Counts (delete_one disk calls opts checkpoint src root) 1
                  (λ del r. counted-settled (λ _. count_deleted) (λ _ stats. omega arith) r _)
                  plan.deletions).goes
                r))
        | inr f ↦ rw f (nothing.goes r)
      ];
    }

    pub fsync-Counts :
        (fsync : FsyncMode) (work : Work)
        → Counts (fsync_touched_dirs disk calls opts checkpoint src root fsync work) 0
    fsync-Counts FsyncMode.auto work = record {
      goes = λ r.
          let (a, fa, ca) = check-Counts.goes r in
          (
            sync_touched disk calls opts checkpoint src root work a,
            ap
                (λ (o : Outcome (Run S)).
                  o >>= λ r. ok (sync_touched disk calls opts checkpoint src root work r))
                fa,
            ca,
          );
    }
    fsync-Counts FsyncMode.always work = nothing
    fsync-Counts FsyncMode.never work = nothing
