-- ===== src/Apply/Division.antt =====
-- apply.rs: every action of a plan goes into one list, or is skipped.
pub mod Lists
pub mod Sizes
pub mod First
use ripsync.Prelude.{
  ℕ, ◌+◌, ◌≡◌, refl, sym, ap, ◌∙◌, arith, Bool, true, false, Option, none, some, List, [], ◌∷◌,
  length, All, if◌then◌else◌, ok, ◌>>◌, ◌>>=◌, Bool-cases, ◌⊎◌, inl, inr,
}
use mathlib.Core.Path.{subst}
use ripsync.Errors.{Outcome}
use ripsync.Paths.{RelPath}
use ripsync.Entries.{EntryKind, Entry, is_file, is_dir, is_skip, Action, PlannedAction}
use ripsync.Plan.{FileId, id_eq}
use ripsync.Plan.Hardlinks.{id_eq→eq}
use ripsync.Meta.{escapes, check_relative, path_of}
use ripsync.Apply.Division.First.{
  Copies, Remembers, Remembers-nil, seen_first-Remembers, place-Copies, canonical_new,
  canonical_old,
}
use ripsync.Apply.Division.Lists.{Links, Merged, Divided, place-Divided}
use ripsync.Apply.{
  Work, no_work, is_linkable, note_dir, by_kind, to_do, place, first_of, source_id, canonical_of,
  seen_first, divide,
}

-- A path of plain names never escapes.
escapes-path_of : (rel : RelPath) → escapes (path_of rel) ≡ false
unfolding escapes
escapes-path_of [] = refl
escapes-path_of (name ∷ rel) = escapes-path_of rel

pub check_relative-path_of : (rel : RelPath) → check_relative (path_of rel) ≡ ok tt
unfolding check_relative
check_relative-path_of rel = rw (escapes-path_of rel)

some-injective : {A : Type 0} {a b : A} → some a ≡ some b → a ≡ b
some-injective h = cc

-- The same lists without the check.
unfoldable pub lists : Bool → List (FileId × RelPath) → List PlannedAction → Work
lists hard_links first [] = no_work
lists hard_links first (pa ∷ actions) =
    let canonical = canonical_of hard_links pa first in
    place pa canonical (lists hard_links (seen_first hard_links pa canonical first) actions)

divide-lists :
    (hard_links : Bool) (first : List (FileId × RelPath)) (actions : List PlannedAction)
    → divide hard_links first actions ≡ ok (lists hard_links first actions)
unfolding divide lists
divide-lists hard_links first [] = refl
divide-lists hard_links first (pa ∷ actions) =
    let canonical = canonical_of hard_links pa first in
    let passes : (if is_skip pa.action then ok tt else check_relative (path_of pa.entry.rel))
        ≡ ok tt =
      elim (Bool-cases (is_skip pa.action)) [
        | inl t ↦ rw t
        | inr f ↦ rw f (check_relative-path_of pa.entry.rel)
      ] in
    ap
      (λ (r : Outcome (Unit {0})).
        r >> divide hard_links (seen_first hard_links pa canonical first) actions >>= λ work.
        ok (place pa canonical work))
      passes
    ∙ ap (λ (r : Outcome Work). r >>= λ work. ok (place pa canonical work))
        (divide-lists hard_links (seen_first hard_links pa canonical first) actions)

-- A file of the plan with the inode of a hard link, at the path that the link is made from.
abbrev pub Origin : List PlannedAction → Entry × Action × RelPath → Type 0
Origin [] link = ⊥
Origin (pa ∷ actions) link =
    ((is_file pa.entry ≡ true)
      × (source_id pa ≡ (link.0.dev, link.0.ino))
      × (pa.entry.rel ≡ link.2))
    ⊎ Origin actions link

abbrev Known : List (FileId × RelPath) → Entry × Action × RelPath → Type 0
Known first link = first_of (link.0.dev, link.0.ino) first ≡ some link.2

module _ (hard_links : Bool) (pa : PlannedAction) (actions : List PlannedAction)
    (first : List (FileId × RelPath)) where
  from_later :
      (canonical : Option RelPath) (link : Entry × Action × RelPath)
      → Origin actions link ⊎ Known (seen_first hard_links pa canonical first) link
      → Origin (pa ∷ actions) link ⊎ Known first link
  unfolding first_of
  from_later canonical link (inl o) = inl (inr o)
  from_later (some c) link (inr k) = inr k
  from_later none link (inr k) = elim (Bool-cases (is_linkable hard_links pa)) [
    | inr f ↦ inr (rw f at k)
    | inl t ↦ elim (Bool-cases (id_eq (source_id pa) (link.0.dev, link.0.ino))) [
      | inl same ↦ inl (
          inl (
            ground arith,
            id_eq→eq (source_id pa) (link.0.dev, link.0.ino) same,
            some-injective (rw (t, same) at k),
          ))
      | inr other ↦ inr (rw (t, other) at k)
    ]
  ]

  is_linked : (c : RelPath) → canonical_of hard_links pa first ≡ some c → is_file pa.entry ≡ true
  is_linked c e = elim (Bool-cases (is_linkable hard_links pa)) [
    | inl t ↦ ground arith
    | inr f ↦ cc (rw f at e)
  ]

  is_known :
      (c : RelPath)
      → canonical_of hard_links pa first ≡ some c
      → first_of (source_id pa) first ≡ some c
  is_known c e = elim (Bool-cases (is_linkable hard_links pa)) [ inl t ↦ rw t at e | inr f ↦ cc ]

hardlinks-note_dir :
    (entry : Entry) (work : Work) → (note_dir entry work).hardlinks ≡ work.hardlinks
hardlinks-note_dir entry work = elim (Bool-cases (is_dir entry)) [ inl t ↦ rw t | inr f ↦ rw f ]

hardlinks-by_kind :
    (entry : Entry) (kind : EntryKind) (action : Action) (work : Work)
    → (by_kind entry kind action work).hardlinks ≡ work.hardlinks
hardlinks-by_kind entry EntryKind.dir action work = refl
hardlinks-by_kind entry EntryKind.file action work = refl
hardlinks-by_kind entry (EntryKind.symlink target) action work = refl

module _ (P : Entry × Action × RelPath → Type 0) (pa : PlannedAction) (work : Work)
    (rest : All P work.hardlinks) where
  to_do_links :
      (canonical : Option RelPath)
      → ((c : RelPath) → canonical ≡ some c → P (pa.entry, pa.action, c))
      → All P (to_do pa.entry pa.action canonical work).hardlinks
  to_do_links none new =
      subst (All P) (sym (hardlinks-by_kind pa.entry pa.entry.kind pa.action work)) rest
  to_do_links (some c) new = (new c refl, rest)

  place_links :
      (canonical : Option RelPath)
      → ((c : RelPath) → canonical ≡ some c → P (pa.entry, pa.action, c))
      → All P (place pa canonical work).hardlinks
  place_links canonical new =
      subst (All P) (sym (hardlinks-note_dir pa.entry _)) (elim (Bool-cases (is_skip pa.action)) [
        | inl t ↦ rw t rest
        | inr f ↦ rw f (to_do_links canonical new)
      ])

All-map :
    {A : Type 0} {P Q : A → Type 0} → ((a : A) → P a → Q a) → (xs : List A) → All P xs → All Q xs
All-map f [] all = tt
All-map f (x ∷ xs) all = (f x all.0, All-map f xs all.1)

lists_links :
    (hard_links : Bool) (first : List (FileId × RelPath)) (actions : List PlannedAction)
    → All
        (λ (link : Entry × Action × RelPath). Origin actions link ⊎ Known first link)
        (lists hard_links first actions).hardlinks
unfolding lists
lists_links hard_links first [] = tt
lists_links hard_links first (pa ∷ actions) =
    let canonical = canonical_of hard_links pa first in
    let later = seen_first hard_links pa canonical first in
    place_links (λ link. Origin (pa ∷ actions) link ⊎ Known first link) pa
      (lists hard_links later actions)
      (All-map (from_later hard_links pa actions first canonical)
        (lists hard_links later actions).hardlinks (lists_links hard_links later actions))
      canonical (λ c e. inr (is_known hard_links pa actions first c e))

from_nothing :
    (actions : List PlannedAction) (link : Entry × Action × RelPath)
    → Origin actions link ⊎ Known [] link
    → Origin actions link
unfolding first_of
from_nothing actions link (inl o) = o
from_nothing actions link (inr k) = cc

lists-Divided :
    (hard_links : Bool) (first : List (FileId × RelPath)) (actions : List PlannedAction)
    → Divided actions (lists hard_links first actions)
unfolding lists
lists-Divided hard_links first [] = (refl, refl, refl, Links.no_links, Merged.no_files)
lists-Divided hard_links first (pa ∷ actions) =
    let canonical = canonical_of hard_links pa first in
    let later = seen_first hard_links pa canonical first in
    place-Divided pa actions (lists hard_links later actions)
      (lists-Divided hard_links later actions) canonical (is_linked hard_links pa actions first)

lists-Copies :
    (first : List (FileId × RelPath)) (earlier actions : List PlannedAction)
    → Remembers true first earlier
    → Copies true earlier actions (lists true first actions).files
unfolding lists
lists-Copies first earlier [] known = Copies.no_more
lists-Copies first earlier (pa ∷ actions) known =
    let canonical = canonical_of true pa first in
    let later = seen_first true pa canonical first in
    place-Copies true pa earlier actions (lists true later actions)
      (lists-Copies later (pa ∷ earlier) actions (seen_first-Remembers pa first earlier known))
      canonical (λ n file. inr (canonical_new pa first earlier known n file))
      (λ c e. (refl, canonical_old pa first earlier known c e))

lists-Copies_all :
    (first : List (FileId × RelPath)) (earlier actions : List PlannedAction)
    → Copies false earlier actions (lists false first actions).files
unfolding lists
lists-Copies_all first earlier [] = Copies.no_more
lists-Copies_all first earlier (pa ∷ actions) =
    place-Copies false pa earlier actions (lists false first actions)
      (lists-Copies_all first (pa ∷ earlier) actions) none (λ n file. inl refl) (λ c e. cc)

copied-Copies :
    (hard_links : Bool) (actions : List PlannedAction)
    → Copies hard_links [] actions (lists hard_links [] actions).files
copied-Copies true actions = lists-Copies [] [] actions (Remembers-nil true)
copied-Copies false actions = lists-Copies_all [] [] actions

-- How `apply_real` divides a plan of paths with plain names: it never fails; the skipped actions
-- are counted; of the others, the directories are in their list, the links with their targets in
-- theirs, and each file is either in the list of files or in that of the hard links, all in the
-- plan's order; with hard links the first file of an inode in the plan is copied, where it is not
-- skipped, and no later one, and without them every file; all directories, also the skipped ones, are in the list for their times; and a hard
-- link is made from the path of a file of the plan that has the inode of the link's own file.
pub divide-Origin :
    (hard_links : Bool) (actions : List PlannedAction)
    → (work : Work) × (divide hard_links [] actions ≡ ok work)
      × Divided actions work
      × Copies hard_links [] actions work.files
      × All (Origin actions) work.hardlinks
divide-Origin hard_links actions =
    let work = lists hard_links [] actions in
    (
      work,
      divide-lists hard_links [] actions,
      lists-Divided hard_links [] actions,
      copied-Copies hard_links actions,
      All-map (from_nothing actions) work.hardlinks (lists_links hard_links [] actions),
    )
