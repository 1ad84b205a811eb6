-- ===== src/Apply/DryRun.antt =====
-- apply.rs: the tally of a dry run is what the plan itself counts.
use ripsync.Prelude.{ℕ, suc, ◌+◌, ◌≡◌, refl, ap, ◌∙◌, arith, List, [], ◌∷◌, length, ok, ◌>>◌, ◌>>=◌}
use ripsync.Errors.{Outcome}
use ripsync.Entries.{copy, update, skip, PlannedAction, Deletion, SyncPlan}
use ripsync.Plan.{count, bytes_to_transfer}
use ripsync.Report.{Stats, no_stats}
use ripsync.Apply.{planned_stats, count_deleted, dry_actions, dry_deletions, apply_dry}

-- The tally behind the actions, and behind the deletions.
abbrev pub with_actions : List PlannedAction → Stats → Stats
with_actions actions stats = record {
  copied = stats.copied + count copy actions;
  updated = stats.updated + count update actions;
  skipped = stats.skipped + count skip actions;
  deleted = stats.deleted;
  errors = stats.errors;
  bytes = stats.bytes + bytes_to_transfer actions;
}

abbrev with_deleted : ℕ → Stats → Stats
with_deleted n stats = record stats { deleted = stats.deleted + n }

same_stats :
    {a b : Stats}
    → a.copied ≡ b.copied
    → a.updated ≡ b.updated
    → a.skipped ≡ b.skipped
    → a.deleted ≡ b.deleted
    → a.errors ≡ b.errors
    → a.bytes ≡ b.bytes
    → a ≡ b
same_stats c u s d e b = λ i. record {
  copied = c i;
  updated = u i;
  skipped = s i;
  deleted = d i;
  errors = e i;
  bytes = b i;
}

planned_stats_first :
    (pa : PlannedAction) (actions : List PlannedAction) (stats : Stats)
    → with_actions actions (planned_stats pa stats) ≡ with_actions (pa ∷ actions) stats
unfolding count bytes_to_transfer
planned_stats_first pa actions stats =
    same_stats (ground arith) (ground arith) (ground arith) (ground arith) (ground arith)
      (ground arith)

nothing_more : (n : ℕ) → n ≡ n + 0
nothing_more n = omega arith

one_more : (n k : ℕ) → n + 1 + k ≡ n + suc k
one_more n k = omega arith

module _ (checkpoint : ℕ → Outcome (Unit {0})) (goes_on : (n : ℕ) → checkpoint n ≡ ok tt) where
  dry_actions_stats :
      (n : ℕ) (actions : List PlannedAction) (stats : Stats)
      → dry_actions checkpoint n actions stats ≡ ok (n + length actions, with_actions actions stats)
  unfolding dry_actions count bytes_to_transfer
  dry_actions_stats n [] stats = λ i. ok (
    nothing_more n i,
    same_stats {a = stats} {b = with_actions [] stats} (omega arith) (omega arith) (omega arith)
        refl refl (omega arith) i,
  )
  dry_actions_stats n (pa ∷ actions) stats =
      ap
        (λ (r : Outcome (Unit {0})).
          r >> dry_actions checkpoint (n + 1) actions (planned_stats pa stats))
        (goes_on n)
      ∙ dry_actions_stats (n + 1) actions (planned_stats pa stats)
      ∙ (λ i. ok (one_more n (length actions) i, planned_stats_first pa actions stats i))

  dry_deletions_stats :
      (n : ℕ) (deletions : List Deletion) (stats : Stats)
      → dry_deletions checkpoint n deletions stats ≡ ok (with_deleted (length deletions) stats)
  unfolding dry_deletions
  dry_deletions_stats n [] stats = ap ok (same_stats refl refl refl (omega arith) refl refl)
  dry_deletions_stats n (del ∷ deletions) stats =
      ap
        (λ (r : Outcome (Unit {0})).
          r >> dry_deletions checkpoint (n + 1) deletions (count_deleted stats))
        (goes_on n)
      ∙ dry_deletions_stats (n + 1) deletions (count_deleted stats)
      ∙ ap ok (same_stats refl refl refl (omega arith) refl refl)

  -- A dry run that nobody cancels gives the counts of its plan: so many copies, updates and skipped
  -- entries, the bytes to transfer, and a deletion for each in the plan; it has no errors.
  pub apply_dry-count :
      (plan : SyncPlan)
      → apply_dry checkpoint plan
        ≡ ok (record {
          copied = count copy plan.actions;
          updated = count update plan.actions;
          skipped = count skip plan.actions;
          deleted = length plan.deletions;
          errors = 0;
          bytes = bytes_to_transfer plan.actions;
        })
  unfolding apply_dry
  apply_dry-count plan =
      ap
        (λ (r : Outcome (Unit {0})).
          r >> dry_actions checkpoint 1 plan.actions no_stats >>= λ (n, stats).
          dry_deletions checkpoint n plan.deletions stats)
        (goes_on 0)
      ∙ ap
          (λ (r : Outcome (ℕ × Stats)).
            r >>= λ (n, stats). dry_deletions checkpoint n plan.deletions stats)
          (dry_actions_stats 1 plan.actions no_stats)
      ∙ dry_deletions_stats (1 + length plan.actions) plan.deletions
          (with_actions plan.actions no_stats)
      ∙ ap ok (
          same_stats (omega arith) (omega arith) (omega arith) (omega arith) (omega arith)
            (omega arith))
