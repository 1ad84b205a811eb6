-- ===== src/Plan/Build.antt =====
-- `build_plan_controlled`: what a plan that it gives holds.
use mathlib.Core.Path.{subst}
use ripsync.Prelude.{
  ◌≡◌, refl, sym, ap, ◌∙◌, arith, Bool, true, false, not, ◌&&◌, Option, none, some, List, [], ◌∷◌,
  map, if◌then◌else◌, ok, err, ◌>>◌, >>=-eq-ok, ok-injective, Bool-cases, Option-cases, inl, inr,
}
use ripsync.Errors.{Outcome, Error}
use ripsync.Paths.{RelPath, lookup, path_eq, starts_with, contains}
use ripsync.Paths.Laws.{path_eq→eq}
use ripsync.Entries.{Entry, Deletion, PlannedAction, SyncPlan}
use ripsync.Index.{Manifest}
use ripsync.Plan.{
  PlanOptions, World, retain, rels, FileId, classify_entry, enforce_hardlink_actions,
  plan_from_walk, plan_from_manifest, is_empty, indexed, dst_walk, plan_by, build_plan,
  deletions_of, collect, ripsync_dir, missing_in, missing_records, sort_deletions,
}
use ripsync.Plan.Deletions.{
  deletion_rels, contains-deletions_of, ChildrenFirst, sort_deletions-ChildrenFirst,
}
use ripsync.Plan.Hardlinks.{entries_of, enforce_hardlink_actions-entries}

err≢ok : {A : Type 0} {e : Error} {a : A} → ¬ (◌≡◌ {A = Outcome A} (err e) (ok a))
err≢ok h = cc

chosen :
    (delete : Bool) (ds : List Deletion) → ChildrenFirst (if delete then sort_deletions ds else [])
chosen true ds = sort_deletions-ChildrenFirst ds
chosen false ds = tt

module _ (w : World) (opts : PlanOptions) where
  -- How a plan came about: the walk of the source, the guard, and one of the two plans.
  record Built (plan : SyncPlan) : Type 0 where
    walked : List Entry
    walk : w.walk_src ≡ ok walked
    guard : (opts.delete && is_empty w opts (retain walked)) ≡ false
    by : plan_by w opts (retain walked) (indexed w opts) ≡ ok plan

  build_plan-ok : (plan : SyncPlan) → build_plan w opts ≡ ok plan → Built plan
  unfolding build_plan
  build_plan-ok plan h =
      let (walked, a, b) = >>=-eq-ok (w.checkpoint 0 >> w.walk_src) _ h in
      let (start, _, walk) = >>=-eq-ok (w.checkpoint 0) (λ _. w.walk_src) a in
      let (again, _, c) = >>=-eq-ok (w.checkpoint 1) _ b in
      elim (Bool-cases (opts.delete && is_empty w opts (retain walked))) [
        | inl t ↦ absurd (
            err≢ok (
              sym (
                ap
                  (λ (e : Bool).
                    if e
                    then err (Error.empty_source w.src_root)
                    else plan_by w opts (retain walked) (indexed w opts))
                  t)
              ∙ c))
        | inr f ↦ record {
          walked = walked;
          walk = walk;
          guard = f;
          by =
              sym (
                ap
                  (λ (e : Bool).
                    if e
                    then err (Error.empty_source w.src_root)
                    else plan_by w opts (retain walked) (indexed w opts))
                  f)
              ∙ c;
        }
      ]

  -- A plan with deletions walked the destination.
  record Walked (src_entries : List Entry) (plan : SyncPlan) : Type 0 where
    found : List Entry
    walk_dst : dst_walk w opts ≡ ok found
    result : plan ≡ plan_from_walk w opts src_entries (retain found)

  plan_by-none :
      (src_entries : List Entry) (plan : SyncPlan)
      → plan_by w opts src_entries none ≡ ok plan
      → Walked src_entries plan
  plan_by-none src_entries plan h =
      let (found, a, b) = >>=-eq-ok (dst_walk w opts) _ h in
      let (passed, _, c) = >>=-eq-ok (w.checkpoint 2) _ b in
      record { found = found; walk_dst = a; result = sym (ok-injective c) }

  entries_of-map :
      (f : Entry → PlannedAction)
      → ((e : Entry) → (f e).entry ≡ e)
      → (es : List Entry) → entries_of (map f es) ≡ es
  entries_of-map f h [] = refl
  entries_of-map f h (e ∷ es) = rw (h e, entries_of-map f h es)

  linked-entries :
      (linked : Bool) (identity : RelPath → Option FileId) (f : Entry → PlannedAction)
      → ((e : Entry) → (f e).entry ≡ e)
      → (es : List Entry)
      → entries_of (if linked then enforce_hardlink_actions identity (map f es) else map f es) ≡ es
  linked-entries true identity f h es =
      enforce_hardlink_actions-entries identity (map f es) ∙ entries_of-map f h es
  linked-entries false identity f h es = entries_of-map f h es

  classify_entry-entry :
      (dst_map : List (RelPath × Entry)) (e : Entry) → (classify_entry w opts dst_map e).entry ≡ e
  unfolding classify_entry
  classify_entry-entry dst_map e = elim (Option-cases (lookup e.rel dst_map)) [
    | inl n ↦ rw (n, classify_entry)
    | inr (d, s) ↦ rw (s, classify_entry)
  ]

  plan_from_walk-entries :
      (es ds : List Entry) → entries_of (plan_from_walk w opts es ds).actions ≡ es
  unfolding plan_from_walk
  plan_from_walk-entries es ds =
      linked-entries opts.hard_links _ _ (classify_entry-entry (collect [] ds)) es

  plan_from_manifest-entries :
      (es : List Entry) (m : Manifest) → entries_of (plan_from_manifest w opts es m).actions ≡ es
  unfolding plan_from_manifest
  plan_from_manifest-entries es m = linked-entries opts.hard_links _ _ (λ _. refl) es

  plan_by-entries :
      (es : List Entry) (loaded : Option Manifest) (plan : SyncPlan)
      → plan_by w opts es loaded ≡ ok plan
      → entries_of plan.actions ≡ es
  plan_by-entries es (some m) plan h =
      ap (λ (p : SyncPlan). entries_of p.actions) (sym (ok-injective h))
      ∙ plan_from_manifest-entries es m
  plan_by-entries es none plan h =
      let walked = plan_by-none es plan h in
      ap (λ (p : SyncPlan). entries_of p.actions) walked.result
      ∙ plan_from_walk-entries es (retain walked.found)

  -- A plan that is given has one action for each entry that the walk of the source found outside
  -- `.ripsync`, in the order of the walk.
  pub build_plan-entries :
      (plan : SyncPlan)
      → build_plan w opts ≡ ok plan
      → (walked : List Entry) × (w.walk_src ≡ ok walked) × (entries_of plan.actions ≡ retain walked)
  build_plan-entries plan h =
      let built = build_plan-ok plan h in
      (
        built.walked,
        built.walk,
        plan_by-entries (retain built.walked) (indexed w opts) plan built.by,
      )

  guard-nonempty :
      (b : Bool) (es : List Entry) → b ≡ true → (b && is_empty w opts es) ≡ false → ¬ (es ≡ [])
  guard-nonempty b [] t g _ = ground arith
  guard-nonempty b (e ∷ es) _ _ h = cc

  -- A plan that deletes has an action: with nothing in the source there is no plan.
  pub build_plan-nonempty :
      (plan : SyncPlan)
      → opts.delete ≡ true
      → build_plan w opts ≡ ok plan
      → ¬ (entries_of plan.actions ≡ [])
  build_plan-nonempty plan d h empty =
      let built = build_plan-ok plan h in
      let e = plan_by-entries (retain built.walked) (indexed w opts) plan built.by in
      guard-nonempty opts.delete (retain built.walked) d built.guard (sym e ∙ empty)

  contains-retain :
      (es : List Entry) (p : RelPath)
      → contains (rels (retain es)) p ≡ contains (rels es) p && not (starts_with p ripsync_dir)
  unfolding retain contains
  contains-retain [] p = refl
  contains-retain (e ∷ es) p = elim (Bool-cases (path_eq e.rel p)) [
    | inl q ↦ ground (arith, contains-retain es p, path_eq→eq e.rel p)
    | inr q ↦ ground (arith, contains-retain es p)
  ]

  indexed-none : opts.delete ≡ true → indexed w opts ≡ none
  indexed-none h = ground arith

  plan_from_walk-deletions :
      (es ds : List Entry)
      → opts.delete ≡ true
      → (plan_from_walk w opts es ds).deletions ≡ deletions_of es ds
  unfolding plan_from_walk
  plan_from_walk-deletions es ds h = ground arith

  -- With `delete`, the paths that a plan deletes are those that the walk of the destination
  -- found and the walk of the source did not, less all in `.ripsync`.
  pub build_plan-deletions :
      (plan : SyncPlan)
      → opts.delete ≡ true
      → build_plan w opts ≡ ok plan
      → (walked found : List Entry) × (w.walk_src ≡ ok walked)
        × (dst_walk w opts ≡ ok found)
        × ((p : RelPath)
            → contains (deletion_rels plan.deletions) p
              ≡ contains (rels found) p
                && not (contains (rels walked) p)
                && not (starts_with p ripsync_dir))
  build_plan-deletions plan d h =
      let built = build_plan-ok plan h in
      let by =
        ap (λ (loaded : Option Manifest). plan_by w opts (retain built.walked) loaded)
          (sym (indexed-none d))
        ∙ built.by in
      let walked = plan_by-none (retain built.walked) plan by in
      (
        built.walked,
        walked.found,
        built.walk,
        walked.walk_dst,
        λ p.
            ap (λ (q : SyncPlan). contains (deletion_rels q.deletions) p) walked.result
            ∙ ap (λ (ds : List Deletion). contains (deletion_rels ds) p)
                (plan_from_walk-deletions (retain built.walked) (retain walked.found) d)
            ∙ contains-deletions_of (retain built.walked) (retain walked.found) p
            ∙ ground (arith, contains-retain built.walked p, contains-retain walked.found p),
      )

  plan_from_manifest-ChildrenFirst :
      (es : List Entry) (m : Manifest) → ChildrenFirst (plan_from_manifest w opts es m).deletions
  unfolding plan_from_manifest
  plan_from_manifest-ChildrenFirst es m = chosen opts.delete (missing_records (rels es) m.entries)

  plan_from_walk-ChildrenFirst :
      (es ds : List Entry) → ChildrenFirst (plan_from_walk w opts es ds).deletions
  unfolding plan_from_walk deletions_of
  plan_from_walk-ChildrenFirst es ds = chosen opts.delete (missing_in (rels es) ds)

  plan_by-ChildrenFirst :
      (es : List Entry) (loaded : Option Manifest) (plan : SyncPlan)
      → plan_by w opts es loaded ≡ ok plan
      → ChildrenFirst plan.deletions
  plan_by-ChildrenFirst es (some m) plan h =
      subst (λ (p : SyncPlan). ChildrenFirst p.deletions) (ok-injective h)
        (plan_from_manifest-ChildrenFirst es m)
  plan_by-ChildrenFirst es none plan h =
      let walked = plan_by-none es plan h in
      subst (λ (p : SyncPlan). ChildrenFirst p.deletions) (sym walked.result)
        (plan_from_walk-ChildrenFirst es (retain walked.found))

  -- In a plan, nothing that lies in a directory is deleted after the directory.
  pub build_plan-ChildrenFirst :
      (plan : SyncPlan) → build_plan w opts ≡ ok plan → ChildrenFirst plan.deletions
  build_plan-ChildrenFirst plan h =
      let built = build_plan-ok plan h in
      plan_by-ChildrenFirst (retain built.walked) (indexed w opts) plan built.by
