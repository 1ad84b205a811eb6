-- ===== src/Index/Snapshot/Changes.antt =====
-- index.rs: the changes that `persist_after_plan` appends, and the manifest that they make.
use ripsync.Prelude.{
  ◌≡◌, refl, sym, ap, ◌∙◌, Bool, Option, none, some, List, [], ◌∷◌, ◌++◌, ok, err, >>=-eq-ok,
  ok-injective, Bool-cases, inl, inr,
}
use ripsync.Errors.{Outcome}
use ripsync.Paths.{insert, remove, lookup}
use ripsync.Entries.{is_skip, PlannedAction, Deletion, SyncPlan}
use ripsync.Index.{Manifest, format_version, Change}
use ripsync.Index.Classify.{Live}
use ripsync.Index.Journal.{Map}
use ripsync.Index.Journal.Replay.{apply_changes}
use ripsync.Index.Snapshot.{
  entry_from_destination, recorded_from, from_destination, upserts, is_recorded, deletes,
}

-- The records that `upserts` and `deletes` leave are those of their changes.
pub upserts-apply_changes :
    (live : Live) (hash : Bool) (actions : List PlannedAction) (entries after : Map)
    (changes : List Change)
    → upserts live hash actions entries ≡ ok (changes, after)
    → after ≡ apply_changes changes entries
unfolding upserts
upserts-apply_changes live hash [] entries after changes h =
    ap (λ (r : List Change × Map). r.1) (sym (ok-injective h))
    ∙ ap (λ (r : List Change × Map). apply_changes r.0 entries) (ok-injective h)
upserts-apply_changes live hash (planned ∷ actions) entries after changes h =
    elim (Bool-cases (is_skip planned.action)) [
      | inl t ↦ upserts-apply_changes live hash actions entries after changes (rw t at h)
      | inr f ↦
          let (recorded, _, h1) =
            >>=-eq-ok (entry_from_destination live planned.entry hash) _ (rw f at h) in
          let ((more, last), e, h2) =
            >>=-eq-ok (upserts live hash actions (insert planned.entry.rel recorded entries)) _
              h1 in
          ap (λ (r : List Change × Map). r.1) (sym (ok-injective h2))
          ∙ upserts-apply_changes live hash actions (insert planned.entry.rel recorded entries) last
              more e
          ∙ ap (λ (r : List Change × Map). apply_changes r.0 entries) (ok-injective h2)
    ]

pub deletes-apply_changes :
    (deletions : List Deletion) (entries : Map)
    → (deletes deletions entries).1 ≡ apply_changes (deletes deletions entries).0 entries
unfolding deletes
deletes-apply_changes [] entries = refl
deletes-apply_changes (deletion ∷ deletions) entries =
    elim (Bool-cases (is_recorded (lookup deletion.rel entries))) [
      | inl t ↦ rw t (deletes-apply_changes deletions (remove deletion.rel entries))
      | inr f ↦ rw f (deletes-apply_changes deletions entries)
    ]

-- The changes that a run appends, and the manifest that it should leave.
abbrev pub changes_from : SyncPlan → Outcome (List Change × Map) → List Change
changes_from plan (err e) = []
changes_from plan (ok (changes, entries)) = changes ++ (deletes plan.deletions entries).0

abbrev pub changes_of : Live → Bool → SyncPlan → Option Manifest → List Change
changes_of live hash plan none = []
changes_of live hash plan (some manifest) =
    changes_from plan (upserts live hash plan.actions manifest.entries)

abbrev pub expected_from : SyncPlan → Manifest → Outcome (List Change × Map) → Outcome Manifest
expected_from plan manifest (err e) = err e
expected_from plan manifest (ok (changes, entries)) =
    ok (record manifest { entries = (deletes plan.deletions entries).1 })

abbrev pub expected : Live → Bool → SyncPlan → Option Manifest → Outcome Manifest
expected live hash plan none = from_destination live hash plan
expected live hash plan (some manifest) =
    expected_from plan manifest (upserts live hash plan.actions manifest.entries)

pub version-from_destination :
    (live : Live) (hash : Bool) (plan : SyncPlan) (manifest : Manifest)
    → from_destination live hash plan ≡ ok manifest
    → manifest.version ≡ format_version
unfolding from_destination
version-from_destination live hash plan manifest h =
    let (entries, _, is) = >>=-eq-ok (recorded_from live hash plan.actions []) _ h in
    ap (λ (m : Manifest). m.version) (sym (ok-injective is))
