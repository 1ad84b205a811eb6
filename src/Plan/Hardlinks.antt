-- ===== src/Plan/Hardlinks.antt =====
-- `enforce_hardlink_actions`: what is left alone has the hard links of the source.
use mathlib.Core.Path.{subst}
use mathlib.Core.Bool.{true≢false}
use ripsync.Prelude.{
  ◌≡◌, refl, sym, ap, ◌∙◌, arith, true, false, Option, none, some, List, [], ◌∷◌, All, Bool-cases,
  Option-cases, inl, inr,
}
use ripsync.Paths.{RelPath}
use ripsync.Entries.{Entry, is_file, skip, update, PlannedAction}
use ripsync.Plan.{
  FileId, id_eq, find_id, identities_eq, source_id, enforce_loop, enforce_hardlink_actions,
}

identities_eq→eq : (a b : Option FileId) → identities_eq a b ≡ true → a ≡ b
identities_eq→eq none none h = refl
identities_eq→eq none (some b) h = ground arith
identities_eq→eq (some a) none h = ground arith
identities_eq→eq (some (a, x)) (some (b, y)) h = ground arith

pub id_eq→eq : (a b : FileId) → id_eq a b ≡ true → a ≡ b
id_eq→eq (d, i) (e, j) h = ground arith

find_id_self :
    (id : FileId) (v : Option FileId) (first : List (FileId × Option FileId))
    → find_id id ((id, v) ∷ first) ≡ some v
unfolding find_id
find_id_self (d, i) v first = ground arith

none≢some : {A : Type 0} {a : A} → ¬ (none ≡ some a)
none≢some h = cc

find_id_kept :
    (key id : FileId) (v x : Option FileId) (first : List (FileId × Option FileId))
    → find_id key first ≡ none
    → find_id id first ≡ some x
    → find_id id ((key, v) ∷ first) ≡ some x
unfolding find_id
find_id_kept (d, i) (e, j) v x first h g = elim (Bool-cases (id_eq (d, i) (e, j))) [
  | inl same ↦
      let q : ◌≡◌ {A = FileId} (d, i) (e, j) = id_eq→eq (d, i) (e, j) same in
      absurd (none≢some (sym h ∙ ap (λ (key : FileId). find_id key first) q ∙ g))
  | inr differ ↦ ground arith
]

some-injective : {A : Type 0} {a b : A} → some a ≡ some b → a ≡ b
some-injective h = cc

not_skip : ¬ (update ≡ skip)
not_skip h = cc

abbrev pub entries_of : List PlannedAction → List Entry
entries_of [] = []
entries_of (p ∷ ps) = p.entry ∷ entries_of ps

module _ (identity : RelPath → Option FileId) where
  -- A file that is left alone is the file of the destination that its group is known to be.
  abbrev Follows : List (FileId × Option FileId) → PlannedAction → Type 0
  Follows first p =
      (x : Option FileId)
      → find_id (source_id p) first ≡ some x
      → is_file p.entry ≡ true
      → p.action ≡ skip
      → identity p.entry.rel ≡ x

  -- Two files of one source inode that are both left alone are one file of the destination.
  abbrev pub SameLinks : PlannedAction → PlannedAction → Type 0
  SameLinks p q =
      is_file p.entry ≡ true
      → is_file q.entry ≡ true
      → source_id p ≡ source_id q
      → p.action ≡ skip
      → q.action ≡ skip
      → identity p.entry.rel ≡ identity q.entry.rel

  abbrev pub IsLinked : List PlannedAction → Type 0
  IsLinked [] = Unit
  IsLinked (p ∷ ps) = All (SameLinks p) ps × IsLinked ps

  module _ (first : List (FileId × Option FileId)) (p : PlannedAction)
      (ps : List PlannedAction) where
    -- The four ways through the body of the loop.
    step_other :
        is_file p.entry ≡ false
        → enforce_loop identity first (p ∷ ps) ≡ p ∷ enforce_loop identity first ps
    unfolding enforce_loop
    step_other h = rw (h)

    step_new :
        is_file p.entry ≡ true
        → find_id (source_id p) first ≡ none
        → enforce_loop identity first (p ∷ ps)
          ≡ p ∷ enforce_loop identity ((source_id p, identity p.entry.rel) ∷ first) ps
    unfolding enforce_loop
    step_new h g = rw (h, g)

    step_kept :
        (c : Option FileId)
        → is_file p.entry ≡ true
        → find_id (source_id p) first ≡ some c
        → identities_eq (identity p.entry.rel) c ≡ true
        → enforce_loop identity first (p ∷ ps) ≡ p ∷ enforce_loop identity first ps
    unfolding enforce_loop
    step_kept c h g e = rw (h, g, e)

    step_forced :
        (c : Option FileId)
        → is_file p.entry ≡ true
        → find_id (source_id p) first ≡ some c
        → identities_eq (identity p.entry.rel) c ≡ false
        → enforce_loop identity first (p ∷ ps)
          ≡ record p { action = update } ∷ enforce_loop identity first ps
    unfolding enforce_loop
    step_forced c h g e = rw (h, g, e)

    -- The same, as a way to prove what holds of the result.
    step_elim :
        (P : List PlannedAction → Type 0)
        → (is_file p.entry ≡ false → P (p ∷ enforce_loop identity first ps))
        → (find_id (source_id p) first ≡ none
            → P (p ∷ enforce_loop identity ((source_id p, identity p.entry.rel) ∷ first) ps))
        → (find_id (source_id p) first ≡ some (identity p.entry.rel)
            → P (p ∷ enforce_loop identity first ps))
        → P (record p { action = update } ∷ enforce_loop identity first ps)
        → P (enforce_loop identity first (p ∷ ps))
    step_elim P other new kept forced = elim (Bool-cases (is_file p.entry)) [
      | inr f ↦ subst P (sym (step_other f)) (other f)
      | inl t ↦ elim (Option-cases (find_id (source_id p) first)) [
        | inl n ↦ subst P (sym (step_new t n)) (new n)
        | inr (c, g) ↦ elim (Bool-cases (identities_eq (identity p.entry.rel) c)) [
          | inl e ↦
              subst P (sym (step_kept c t g e))
                (kept (g ∙ ap some (sym (identities_eq→eq (identity p.entry.rel) c e))))
          | inr e ↦ subst P (sym (step_forced c t g e)) forced
        ]
      ]
    ]

  Follows-earlier :
      (first : List (FileId × Option FileId)) (key : FileId) (v : Option FileId)
      (ps : List PlannedAction)
      → find_id key first ≡ none
      → All (Follows ((key, v) ∷ first)) ps
      → All (Follows first) ps
  Follows-earlier first key v [] h _ = tt
  Follows-earlier first key v (p ∷ ps) h (q, qs) = (
    λ x g. q x (find_id_kept key (source_id p) v x first h g),
    Follows-earlier first key v ps h qs,
  )

  enforce_loop-Follows :
      (first : List (FileId × Option FileId)) (ps : List PlannedAction)
      → All (Follows first) (enforce_loop identity first ps)
  unfolding enforce_loop
  enforce_loop-Follows first [] = tt
  enforce_loop-Follows first (p ∷ ps) =
      let later = enforce_loop-Follows first ps in
      step_elim first p ps (All (Follows first))
        (λ f. (λ x _ t. absurd (true≢false (sym t ∙ f)), later))
        (λ n. (
          λ x g. absurd (none≢some (sym n ∙ g)),
          Follows-earlier first (source_id p) (identity p.entry.rel) _ n
              (enforce_loop-Follows ((source_id p, identity p.entry.rel) ∷ first) ps),
        ))
        (λ g. (λ x e _ _. some-injective (sym g ∙ e), later))
        (λ x _ _ s. absurd (not_skip s), later)

  All-SameLinks :
      (first : List (FileId × Option FileId)) (p : PlannedAction) (ps : List PlannedAction)
      → find_id (source_id p) first ≡ some (identity p.entry.rel)
      → All (Follows first) ps
      → All (SameLinks p) ps
  All-SameLinks first p [] g _ = tt
  All-SameLinks first p (q ∷ qs) g (follows, rest) = (
    λ _ file same _ s. sym (
        follows (identity p.entry.rel) (ap (λ (key : FileId). find_id key first) (sym same) ∙ g)
          file s),
    All-SameLinks first p qs g rest,
  )

  All-vacuous :
      (p : PlannedAction) (ps : List PlannedAction)
      → ((is_file p.entry ≡ true) → (p.action ≡ skip) → ⊥)
      → All (SameLinks p) ps
  All-vacuous p [] h = tt
  All-vacuous p (q ∷ qs) h = (λ t _ _ s. absurd (h t s), All-vacuous p qs h)

  enforce_loop-IsLinked :
      (first : List (FileId × Option FileId)) (ps : List PlannedAction)
      → IsLinked (enforce_loop identity first ps)
  unfolding enforce_loop
  enforce_loop-IsLinked first [] = tt
  enforce_loop-IsLinked first (p ∷ ps) =
      let later = enforce_loop-IsLinked first ps in
      let follows = enforce_loop-Follows first ps in
      let known = (source_id p, identity p.entry.rel) ∷ first in
      step_elim first p ps IsLinked (λ f. (All-vacuous p _ (λ t _. true≢false (sym t ∙ f)), later))
        (λ n. (
          All-SameLinks known p _ (find_id_self (source_id p) (identity p.entry.rel) first)
              (enforce_loop-Follows known ps),
          enforce_loop-IsLinked known ps,
        ))
        (λ g. (All-SameLinks first p _ g follows, later))
        (All-vacuous (record p { action = update }) _ (λ _ s. not_skip s), later)

  -- With hard links kept, any two files of the plan that are one file in the source and are both
  -- left alone are one file in the destination.
  pub enforce_hardlink_actions-IsLinked :
      (actions : List PlannedAction) → IsLinked (enforce_hardlink_actions identity actions)
  unfolding enforce_hardlink_actions
  enforce_hardlink_actions-IsLinked actions = enforce_loop-IsLinked [] actions

  enforce_loop-entries :
      (first : List (FileId × Option FileId)) (ps : List PlannedAction)
      → entries_of (enforce_loop identity first ps) ≡ entries_of ps
  unfolding enforce_loop
  enforce_loop-entries first [] = refl
  enforce_loop-entries first (p ∷ ps) =
      let later = ap (λ (es : List Entry). p.entry ∷ es) (enforce_loop-entries first ps) in
      step_elim first p ps (λ (r : List PlannedAction). entries_of r ≡ p.entry ∷ entries_of ps)
        (λ _. later)
        (λ _.
          ap (λ (es : List Entry). p.entry ∷ es)
            (enforce_loop-entries ((source_id p, identity p.entry.rel) ∷ first) ps))
        (λ _. later) later

  pub enforce_hardlink_actions-entries :
      (actions : List PlannedAction)
      → entries_of (enforce_hardlink_actions identity actions) ≡ entries_of actions
  unfolding enforce_hardlink_actions
  enforce_hardlink_actions-entries actions = enforce_loop-entries [] actions
