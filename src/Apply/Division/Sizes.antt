-- ===== src/Apply/Division/Sizes.antt =====
-- apply.rs: the lists of the work hold no more and no less than the plan's actions.
use ripsync.Prelude.{
  ℕ, ◌+◌, ◌≡◌, refl, ◌∙◌, arith, Bool, Option, none, some, List, [], ◌∷◌, length, ok, Bool-cases,
  inl, inr,
}
use ripsync.Paths.{RelPath}
use ripsync.Entries.{EntryKind, Entry, is_dir, is_skip, Action, PlannedAction}
use ripsync.Plan.{FileId}
use ripsync.Apply.{Work, note_dir, by_kind, to_do, place, canonical_of, seen_first, divide}
use ripsync.Apply.Division.{lists, divide-lists}

-- How many actions the lists and the skipped ones stand for.
abbrev pub size_of : Work → ℕ
size_of work =
    work.skipped
    + length work.dirs
    + length work.files
    + length work.hardlinks
    + length work.symlinks

size_of-note_dir : (entry : Entry) (work : Work) → size_of (note_dir entry work) ≡ size_of work
size_of-note_dir entry work = elim (Bool-cases (is_dir entry)) [ inl t ↦ rw t | inr f ↦ rw f ]

size_of-by_kind :
    (entry : Entry) (kind : EntryKind) (action : Action) (work : Work)
    → size_of (by_kind entry kind action work) ≡ size_of work + 1
size_of-by_kind entry EntryKind.dir action work = omega arith
size_of-by_kind entry EntryKind.file action work = omega arith
size_of-by_kind entry (EntryKind.symlink target) action work = omega arith

size_of-to_do :
    (entry : Entry) (action : Action) (canonical : Option RelPath) (work : Work)
    → size_of (to_do entry action canonical work) ≡ size_of work + 1
size_of-to_do entry action none work = size_of-by_kind entry entry.kind action work
size_of-to_do entry action (some canonical) work = omega arith

size_of-place :
    (pa : PlannedAction) (canonical : Option RelPath) (work : Work)
    → size_of (place pa canonical work) ≡ size_of work + 1
size_of-place pa canonical work =
    size_of-note_dir pa.entry _ ∙ elim (Bool-cases (is_skip pa.action)) [
      | inl t ↦ rw t (omega arith)
      | inr f ↦ rw f (size_of-to_do pa.entry pa.action canonical work)
    ]

size_of-lists :
    (hard_links : Bool) (first : List (FileId × RelPath)) (actions : List PlannedAction)
    → size_of (lists hard_links first actions) ≡ length actions
unfolding lists
size_of-lists hard_links first [] = refl
size_of-lists hard_links first (pa ∷ actions) =
    let canonical = canonical_of hard_links pa first in
    let rest = seen_first hard_links pa canonical first in
    omega (
      arith,
      size_of-place pa canonical (lists hard_links rest actions),
      size_of-lists hard_links rest actions,
    )

pub divide-size_of :
    (hard_links : Bool) (actions : List PlannedAction)
    → (work : Work) × (divide hard_links [] actions ≡ ok work) × (size_of work ≡ length actions)
divide-size_of hard_links actions = (
  lists hard_links [] actions,
  divide-lists hard_links [] actions,
  size_of-lists hard_links [] actions,
)
