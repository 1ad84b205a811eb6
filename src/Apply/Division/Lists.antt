-- ===== src/Apply/Division/Lists.antt =====
-- apply.rs: the lists that a plan's actions are divided into, each described by itself.
use ripsync.Prelude.{
  ℕ, ◌+◌, ◌≡◌, refl, sym, ap, Bool, true, false, not, ◌&&◌, Option, none, some, List, [], ◌∷◌,
  if◌then◌else◌, Bool-cases, inl, inr,
}
use mathlib.Core.Bool.{true≢false}
use mathlib.Core.Path.{subst}
use ripsync.Paths.{RelPath}
use ripsync.Entries.{
  EntryKind, Entry, kind_is_dir, kind_is_file, is_file, is_dir, is_skip, Action, PlannedAction,
}
use ripsync.Apply.{Work, by_kind, note_dir, to_do, place}

-- The actions that pass a test, in their order.
abbrev pub only : (PlannedAction → Bool) → List PlannedAction → List PlannedAction
only test [] = []
only test (pa ∷ actions) = if test pa then pa ∷ only test actions else only test actions

abbrev pub entries : List PlannedAction → List Entry
entries [] = []
entries (pa ∷ actions) = pa.entry ∷ entries actions

abbrev pub how_many : List PlannedAction → ℕ
how_many [] = 0
how_many (pa ∷ actions) = how_many actions + 1

abbrev pub works : (Entry → Bool) → PlannedAction → Bool
works test pa = not (is_skip pa.action) && test pa.entry

-- Links of work are those of the actions, in their order, with their targets.
pub data Links : List PlannedAction → List (Entry × Action × List ℕ) → Type 0 where
  no_links : Links [] []
  link :
      (pa : PlannedAction) (target : List ℕ) {actions : List PlannedAction}
      {links : List (Entry × Action × List ℕ)}
      → pa.entry.kind ≡ EntryKind.symlink target
      → Links actions links
      → Links (pa ∷ actions) ((pa.entry, pa.action, target) ∷ links)

-- Each action of the first list stands in the second list or in the third one, in its order.
pub data Merged
    : List PlannedAction → List (Entry × Action) → List (Entry × Action × RelPath) → Type 0 where
  no_files : Merged [] [] []
  copied :
      (pa : PlannedAction) {actions : List PlannedAction} {files : List (Entry × Action)}
      {links : List (Entry × Action × RelPath)}
      → Merged actions files links
      → Merged (pa ∷ actions) ((pa.entry, pa.action) ∷ files) links
  linked :
      (pa : PlannedAction) (canonical : RelPath) {actions : List PlannedAction}
      {files : List (Entry × Action)} {links : List (Entry × Action × RelPath)}
      → Merged actions files links
      → Merged (pa ∷ actions) files ((pa.entry, pa.action, canonical) ∷ links)

abbrev pub kind_is_link : EntryKind → Bool
kind_is_link (EntryKind.symlink _) = true
kind_is_link EntryKind.file = false
kind_is_link EntryKind.dir = false

abbrev pub is_link : Entry → Bool
is_link entry = kind_is_link entry.kind

-- What stands in each list of the work for a plan's actions.
abbrev pub Divided : List PlannedAction → Work → Type 0
Divided actions work =
    (work.skipped ≡ how_many (only (λ pa. is_skip pa.action) actions))
    × (work.dirs ≡ entries (only (works is_dir) actions))
    × (work.mtime_dirs ≡ entries (only (λ pa. is_dir pa.entry) actions))
    × Links (only (works is_link) actions) work.symlinks
    × Merged (only (works is_file) actions) work.files work.hardlinks

module _ (pa : PlannedAction) (actions : List PlannedAction) (work : Work)
    (rest : Divided actions work) where
  skip-Divided :
      (canonical : Option RelPath)
      → is_skip pa.action ≡ true
      → Divided (pa ∷ actions) (place pa canonical work)
  skip-Divided canonical t = elim (Bool-cases (is_dir pa.entry)) [
    | inl d ↦
        rw (t, d) (ap (λ (n : ℕ). n + 1) rest.0, rest.1, ap (◌∷◌ pa.entry) rest.2, rest.3, rest.4)
    | inr d ↦ rw (t, d) (ap (λ (n : ℕ). n + 1) rest.0, rest.1, rest.2, rest.3, rest.4)
  ]

  by_kind-Divided :
      (kind : EntryKind)
      → pa.entry.kind ≡ kind
      → is_skip pa.action ≡ false
      → Divided (pa ∷ actions) (note_dir pa.entry (by_kind pa.entry kind pa.action work))
  by_kind-Divided EntryKind.dir e f =
      rw (f, ap kind_is_dir e, ap kind_is_file e, ap kind_is_link e)
        (rest.0, ap (◌∷◌ pa.entry) rest.1, ap (◌∷◌ pa.entry) rest.2, rest.3, rest.4)
  by_kind-Divided EntryKind.file e f =
      rw (f, ap kind_is_dir e, ap kind_is_file e, ap kind_is_link e)
        (rest.0, rest.1, rest.2, rest.3, Merged.copied pa rest.4)
  by_kind-Divided (EntryKind.symlink target) e f =
      rw (f, ap kind_is_dir e, ap kind_is_file e, ap kind_is_link e)
        (rest.0, rest.1, rest.2, Links.link pa target e rest.3, rest.4)

  linked-Divided :
      (c : RelPath) (kind : EntryKind)
      → pa.entry.kind ≡ kind
      → kind_is_file kind ≡ true
      → is_skip pa.action ≡ false
      → Divided (pa ∷ actions) (note_dir pa.entry (to_do pa.entry pa.action (some c) work))
  linked-Divided c EntryKind.file e g f =
      rw (f, ap kind_is_dir e, ap kind_is_file e, ap kind_is_link e)
        (rest.0, rest.1, rest.2, rest.3, Merged.linked pa c rest.4)
  linked-Divided c EntryKind.dir e g f = absurd (true≢false (sym g))
  linked-Divided c (EntryKind.symlink target) e g f = absurd (true≢false (sym g))

  work-Divided :
      (canonical : Option RelPath)
      → ((c : RelPath) → canonical ≡ some c → is_file pa.entry ≡ true)
      → is_skip pa.action ≡ false
      → Divided (pa ∷ actions) (note_dir pa.entry (to_do pa.entry pa.action canonical work))
  work-Divided none files f = by_kind-Divided pa.entry.kind refl f
  work-Divided (some c) files f = linked-Divided c pa.entry.kind refl (files c refl) f

  pub place-Divided :
      (canonical : Option RelPath)
      → ((c : RelPath) → canonical ≡ some c → is_file pa.entry ≡ true)
      → Divided (pa ∷ actions) (place pa canonical work)
  place-Divided canonical files = elim (Bool-cases (is_skip pa.action)) [
    | inl t ↦ skip-Divided canonical t
    | inr f ↦
        let placed : place pa canonical work
            ≡ note_dir pa.entry (to_do pa.entry pa.action canonical work) =
          rw f refl in
        subst (Divided (pa ∷ actions)) (sym placed) (work-Divided canonical files f)
  ]
