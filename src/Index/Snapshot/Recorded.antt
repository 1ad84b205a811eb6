-- ===== src/Index/Snapshot/Recorded.antt =====
-- index.rs: what a manifest says of each path behind a run, described by the plan's own lists.
use ripsync.Prelude.{
  ◌≡◌, refl, sym, ap, ◌∙◌, Bool, true, false, not, ◌&&◌, ◌||◌, Option, none, some, List, [], ◌∷◌,
  if◌then◌else◌, ok, err, >>=-eq-ok, ok-injective, Bool-cases, Option-cases, inl, inr,
}
use mathlib.Core.Path.{subst}
use ripsync.Errors.{Outcome}
use ripsync.Paths.{RelPath, path_eq, insert, remove, lookup}
use ripsync.Paths.Laws.{path_eq→eq, lookup-insert, lookup-remove}
use ripsync.Entries.{is_skip, PlannedAction, Deletion, SyncPlan}
use ripsync.Index.{ManifestEntry, Manifest, Change}
use ripsync.Index.Classify.{Live}
use ripsync.Index.Journal.{Map}
use ripsync.Index.Snapshot.Changes.{expected_from, expected}
use ripsync.Index.Snapshot.{
  entry_from_destination, recorded_from, from_destination, upserts, is_recorded, deletes,
}

abbrev or_first : Option PlannedAction → Option PlannedAction → Option PlannedAction
or_first none first = first
or_first (some pa) first = some pa

-- The last action on the path `p` that passes a test.
abbrev pub last_at : (PlannedAction → Bool) → RelPath → List PlannedAction → Option PlannedAction
last_at test p [] = none
last_at test p (pa ∷ actions) =
    or_first (last_at test p actions) (if test pa && path_eq pa.entry.rel p then some pa else none)

abbrev pub deletes_path : RelPath → List Deletion → Bool
deletes_path p [] = false
deletes_path p (d ∷ deletions) = path_eq d.rel p || deletes_path p deletions

-- A path's record is that of the action's entry as the destination has it; without an action it is
-- the one from before.
abbrev pub Updated :
    Live → Bool → Option PlannedAction → Option ManifestEntry → Option ManifestEntry → Type 0
Updated live hash none before after = after ≡ before
Updated live hash (some pa) before after =
    (recorded : ManifestEntry) × (entry_from_destination live pa.entry hash ≡ ok recorded)
    × (after ≡ some recorded)

abbrev pub Unless : Bool → Type 0 → Option ManifestEntry → Type 0
Unless true P after = after ≡ none
Unless false P after = P

-- What a run leaves at the path `p`, given the manifest from before the run: where there was none,
-- the record of the last action there; else nothing if the plan deletes the path, and the record of
-- the last action there that is no skip, or else the record from before.
abbrev pub Recorded :
    Live → Bool → SyncPlan → Option Manifest → RelPath → Option ManifestEntry → Type 0
Recorded live hash plan none p after =
    Updated live hash (last_at (λ pa. true) p plan.actions) none after
Recorded live hash plan (some manifest) p after =
    Unless (deletes_path p plan.deletions)
      (Updated live hash (last_at (λ pa. not (is_skip pa.action)) p plan.actions)
        (lookup p manifest.entries) after)
      after

module _ (live : Live) (hash : Bool) (p : RelPath) where
  Updated-or_first :
      (later : Option PlannedAction) (pa : PlannedAction) (recorded : ManifestEntry) (here : Bool)
      (before after : Option ManifestEntry)
      → entry_from_destination live pa.entry hash ≡ ok recorded
      → Updated live hash later (if here then some recorded else before) after
      → Updated live hash (or_first later (if here then some pa else none)) before after
  Updated-or_first (some later) pa recorded here before after e h = h
  Updated-or_first none pa recorded true before after e h = (recorded, e, h)
  Updated-or_first none pa recorded false before after e h = h

  Updated-insert :
      (later : Option PlannedAction) (pa : PlannedAction) (recorded : ManifestEntry) (entries : Map)
      (after : Option ManifestEntry)
      → entry_from_destination live pa.entry hash ≡ ok recorded
      → Updated live hash later (lookup p (insert pa.entry.rel recorded entries)) after
      → Updated live hash
          (or_first later (if path_eq pa.entry.rel p then some pa else none))
          (lookup p entries)
          after
  Updated-insert later pa recorded entries after e h =
      Updated-or_first later pa recorded (path_eq pa.entry.rel p) (lookup p entries) after e (
        subst (λ before. Updated live hash later before after)
          (lookup-insert pa.entry.rel p recorded entries) h)

  upserts-Updated :
      (actions : List PlannedAction) (entries after : Map) (changes : List Change)
      → upserts live hash actions entries ≡ ok (changes, after)
      → Updated live hash
          (last_at (λ pa. not (is_skip pa.action)) p actions)
          (lookup p entries)
          (lookup p after)
  unfolding upserts
  upserts-Updated [] entries after changes h =
      ap (λ (r : List Change × Map). lookup p r.1) (sym (ok-injective h))
  upserts-Updated (pa ∷ actions) entries after changes h = elim (Bool-cases (is_skip pa.action)) [
    | inl t ↦ rw t (
        none_first (last_at (λ pa. not (is_skip pa.action)) p actions) (lookup p entries)
          (lookup p after) (upserts-Updated actions entries after changes (rw t at h)))
    | inr f ↦
        let (recorded, found, h1) =
          >>=-eq-ok (entry_from_destination live pa.entry hash) _ (rw f at h) in
        let ((more, last), e, h2) =
          >>=-eq-ok (upserts live hash actions (insert pa.entry.rel recorded entries)) _ h1 in
        let same = ap (λ (r : List Change × Map). r.1) (ok-injective h2) in
        rw f (
          Updated-insert (last_at (λ pa. not (is_skip pa.action)) p actions) pa recorded entries
            (lookup p after) found
            (subst
              (λ (m : Map).
                Updated live hash (last_at (λ pa. not (is_skip pa.action)) p actions)
                  (lookup p (insert pa.entry.rel recorded entries)) (lookup p m))
              same (upserts-Updated actions (insert pa.entry.rel recorded entries) last more e)))
  ]
    where
      none_first :
          (later : Option PlannedAction) (before after : Option ManifestEntry)
          → Updated live hash later before after
          → Updated live hash (or_first later none) before after
      none_first none before after h = h
      none_first (some pa) before after h = h

  recorded_from-Updated :
      (actions : List PlannedAction) (entries after : Map)
      → recorded_from live hash actions entries ≡ ok after
      → Updated live hash (last_at (λ pa. true) p actions) (lookup p entries) (lookup p after)
  unfolding recorded_from
  recorded_from-Updated [] entries after h = ap (lookup p) (sym (ok-injective h))
  recorded_from-Updated (pa ∷ actions) entries after h =
      let (recorded, found, h1) = >>=-eq-ok (entry_from_destination live pa.entry hash) _ h in
      Updated-insert (last_at (λ pa. true) p actions) pa recorded entries (lookup p after) found
        (recorded_from-Updated actions (insert pa.entry.rel recorded entries) after h1)

-- What is recorded of a path behind the deletions.
lookup-deletes :
    (p : RelPath) (deletions : List Deletion) (entries : Map)
    → lookup p (deletes deletions entries).1
      ≡ (if deletes_path p deletions then none else lookup p entries)
unfolding deletes
lookup-deletes p [] entries = refl
lookup-deletes p (d ∷ deletions) entries = elim (Option-cases (lookup d.rel entries)) [
  | inr (found, e) ↦ rw (ap is_recorded e) (
      lookup-deletes p deletions (remove d.rel entries)
      ∙ ap (λ (r : Option ManifestEntry). if deletes_path p deletions then none else r)
          (lookup-remove d.rel p entries)
      ∙ either (path_eq d.rel p) (deletes_path p deletions) (lookup p entries))
  | inl n ↦ rw (ap is_recorded n) (
      lookup-deletes p deletions entries
      ∙ nothing (path_eq d.rel p) (deletes_path p deletions) (lookup p entries)
          (λ t. ap (λ q. lookup q entries) (sym (path_eq→eq d.rel p t)) ∙ n))
]
  where
    either :
        (a b : Bool) (r : Option ManifestEntry)
        → (if b then none else (if a then none else r)) ≡ (if a || b then none else r)
    either true true r = refl
    either true false r = refl
    either false b r = refl

    nothing :
        (a b : Bool) (r : Option ManifestEntry)
        → (a ≡ true → r ≡ none)
        → (if b then none else r) ≡ (if a || b then none else r)
    nothing true true r h = refl
    nothing true false r h = h refl
    nothing false b r h = refl

Unless-if :
    (live : Live) (hash deleted : Bool) (pa : Option PlannedAction)
    (before middle after : Option ManifestEntry)
    → after ≡ (if deleted then none else middle)
    → Updated live hash pa before middle
    → Unless deleted (Updated live hash pa before after) after
Unless-if live hash true pa before middle after e h = e
Unless-if live hash false pa before middle after e h = subst (Updated live hash pa before) (sym e) h

pub from_destination-Recorded :
    (live : Live) (hash : Bool) (plan : SyncPlan) (manifest : Manifest) (p : RelPath)
    → from_destination live hash plan ≡ ok manifest
    → Recorded live hash plan none p (lookup p manifest.entries)
unfolding from_destination lookup
from_destination-Recorded live hash plan manifest p h =
    let (entries, made, is) = >>=-eq-ok (recorded_from live hash plan.actions []) _ h in
    subst (λ (m : Manifest). Recorded live hash plan none p (lookup p m.entries)) (ok-injective is)
      (recorded_from-Updated live hash p plan.actions [] entries made)

pub upserts-deletes-Recorded :
    (live : Live) (hash : Bool) (plan : SyncPlan) (before : Manifest) (changes : List Change)
    (entries : Map) (p : RelPath)
    → upserts live hash plan.actions before.entries ≡ ok (changes, entries)
    → Recorded live hash plan (some before) p (lookup p (deletes plan.deletions entries).1)
upserts-deletes-Recorded live hash plan before changes entries p h =
    Unless-if live hash (deletes_path p plan.deletions)
      (last_at (λ pa. not (is_skip pa.action)) p plan.actions) (lookup p before.entries)
      (lookup p entries) (lookup p (deletes plan.deletions entries).1)
      (lookup-deletes p plan.deletions entries)
      (upserts-Updated live hash p plan.actions before.entries entries changes h)

expected_from-Recorded :
    (live : Live) (hash : Bool) (plan : SyncPlan) (before manifest : Manifest) (p : RelPath)
    (o : Outcome (List Change × Map))
    → upserts live hash plan.actions before.entries ≡ o
    → expected_from plan before o ≡ ok manifest
    → Recorded live hash plan (some before) p (lookup p manifest.entries)
expected_from-Recorded live hash plan before manifest p (err e) is h = cc
expected_from-Recorded live hash plan before manifest p (ok (changes, entries)) is h =
    subst (λ (m : Manifest). Recorded live hash plan (some before) p (lookup p m.entries))
      (ok-injective h) (upserts-deletes-Recorded live hash plan before changes entries p is)

pub expected-Recorded :
    (live : Live) (hash : Bool) (plan : SyncPlan) (before : Option Manifest) (manifest : Manifest)
    (p : RelPath)
    → expected live hash plan before ≡ ok manifest
    → Recorded live hash plan before p (lookup p manifest.entries)
expected-Recorded live hash plan none manifest p h =
    from_destination-Recorded live hash plan manifest p h
expected-Recorded live hash plan (some before) manifest p h =
    expected_from-Recorded live hash plan before manifest p
      (upserts live hash plan.actions before.entries) refl h
