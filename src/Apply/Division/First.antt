-- ===== src/Apply/Division/First.antt =====
-- apply.rs: a file is copied where it is the first of its inode, and linked to that one elsewhere.
use ripsync.Prelude.{
  ◌≡◌, refl, sym, ap, ◌∙◌, arith, Bool, true, false, Option, none, some, List, [], ◌∷◌, Bool-cases,
  Option-cases, ◌⊎◌, inl, inr,
}
use mathlib.Core.Bool.{true≢false}
use mathlib.Core.Path.{subst}
use ripsync.Paths.{RelPath}
use ripsync.Entries.{
  kind_is_dir, kind_is_file, Entry, EntryKind, is_file, is_dir, is_skip, Action, PlannedAction,
}
use ripsync.Plan.{FileId, id_eq}
use ripsync.Plan.Hardlinks.{id_eq→eq}
use ripsync.Apply.{
  Work, note_dir, by_kind, to_do, place, first_of, source_id, canonical_of, seen_first,
}
use ripsync.Apply.Division.Lists.{works}

-- One of the actions is of a file with this inode.
abbrev pub Seen : FileId → List PlannedAction → Type 0
Seen id [] = ⊥
Seen id (pa ∷ actions) = ((is_file pa.entry ≡ true) × (source_id pa ≡ id)) ⊎ Seen id actions

-- The files that are copied, behind the actions `earlier`: those of work that are the first of their
-- inode, or all where hard links do not count.
pub data Copies (hard_links : Bool)
    : List PlannedAction → List PlannedAction → List (Entry × Action) → Type 0 where
  no_more : {earlier : List PlannedAction} → Copies hard_links earlier [] []
  other :
      {earlier : List PlannedAction} (pa : PlannedAction) {actions : List PlannedAction}
      {files : List (Entry × Action)}
      → works is_file pa ≡ false
      → Copies hard_links (pa ∷ earlier) actions files
      → Copies hard_links earlier (pa ∷ actions) files
  again :
      {earlier : List PlannedAction} (pa : PlannedAction) {actions : List PlannedAction}
      {files : List (Entry × Action)}
      → hard_links ≡ true
      → Seen (source_id pa) earlier
      → Copies hard_links (pa ∷ earlier) actions files
      → Copies hard_links earlier (pa ∷ actions) files
  copy :
      {earlier : List PlannedAction} (pa : PlannedAction) {actions : List PlannedAction}
      {files : List (Entry × Action)}
      → works is_file pa ≡ true
      → (hard_links ≡ false) ⊎ (¬ Seen (source_id pa) earlier)
      → Copies hard_links (pa ∷ earlier) actions files
      → Copies hard_links earlier (pa ∷ actions) ((pa.entry, pa.action) ∷ files)

-- What is remembered of the actions behind the loop.
pub record Remembers (hard_links : Bool) (first : List (FileId × RelPath))
    (earlier : List PlannedAction) : Type 0 where
  pub unseen : (id : FileId) → hard_links ≡ true → first_of id first ≡ none → ¬ Seen id earlier
  pub seen :
      (id : FileId) (c : RelPath) → hard_links ≡ true → first_of id first ≡ some c → Seen id earlier

none≢some : {A : Type 0} {a : A} → ¬ (none ≡ some a)
none≢some h = cc

id_eq_self : (id : FileId) → id_eq id id ≡ true
id_eq_self (d, i) = ground arith

pub Remembers-nil : (hard_links : Bool) → Remembers hard_links [] []
unfolding first_of
Remembers-nil hard_links = record {
  unseen = λ id t h s. s;
  seen = λ id c t h. absurd (none≢some h);
}

module _ (pa : PlannedAction) (first : List (FileId × RelPath)) (earlier : List PlannedAction)
    (known : Remembers true first earlier) where
  kept :
      (c : RelPath) → first_of (source_id pa) first ≡ some c → Remembers true first (pa ∷ earlier)
  kept c e = record {
    unseen = λ id t h s. elim s [
      | inl (file, same) ↦ none≢some (sym h ∙ ap (λ (i : FileId). first_of i first) (sym same) ∙ e)
      | inr s ↦ known.unseen id t h s
    ];
    seen = λ id c' t h. inr (known.seen id c' t h);
  }

  no_file : is_file pa.entry ≡ false → Remembers true first (pa ∷ earlier)
  no_file f = record {
    unseen = λ id t h s. elim s [
      | inl (file, same) ↦ true≢false (sym file ∙ f)
      | inr s ↦ known.unseen id t h s
    ];
    seen = λ id c t h. inr (known.seen id c t h);
  }

  added_unknown :
      (id : FileId)
      → first_of id ((source_id pa, pa.entry.rel) ∷ first) ≡ none
      → ¬ Seen id (pa ∷ earlier)
  unfolding first_of
  added_unknown id h s = elim (Bool-cases (id_eq (source_id pa) id)) [
    | inl t ↦ none≢some (sym (rw t at h))
    | inr f ↦ elim s [
      | inl (file, same) ↦
          true≢false
            (sym (id_eq_self (source_id pa)) ∙ ap (λ (i : FileId). id_eq (source_id pa) i) same ∙ f)
      | inr s ↦ known.unseen id refl (rw f at h) s
    ]
  ]

  added_known :
      (id : FileId) (c : RelPath)
      → is_file pa.entry ≡ true
      → first_of id ((source_id pa, pa.entry.rel) ∷ first) ≡ some c
      → Seen id (pa ∷ earlier)
  unfolding first_of
  added_known id c file h = elim (Bool-cases (id_eq (source_id pa) id)) [
    | inl t ↦ inl (file, id_eq→eq (source_id pa) id t)
    | inr f ↦ inr (known.seen id c refl (rw f at h))
  ]

  pub seen_first-Remembers :
      Remembers true (seen_first true pa (canonical_of true pa first) first) (pa ∷ earlier)
  seen_first-Remembers = elim (Bool-cases (is_file pa.entry)) [
    | inr f ↦ rw f (rw f (no_file f))
    | inl t ↦ elim (Option-cases (first_of (source_id pa) first)) [
      | inr (c, e) ↦ rw (t, e) (kept c e)
      | inl n ↦
          rw (t, n)
            (rw t (record {
              unseen = λ id _ h. added_unknown id h;
              seen = λ id c _ h. added_known id c t h;
            }))
    ]
  ]

module _ (hard_links : Bool) (pa : PlannedAction) (earlier actions : List PlannedAction)
    (work : Work) (rest : Copies hard_links (pa ∷ earlier) actions work.files) where
  skipped-Copies :
      (canonical : Option RelPath)
      → is_skip pa.action ≡ true
      → Copies hard_links earlier (pa ∷ actions) (place pa canonical work).files
  skipped-Copies canonical t = elim (Bool-cases (is_dir pa.entry)) [
    | inl d ↦ rw (t, d) (Copies.other pa (rw t refl) rest)
    | inr d ↦ rw (t, d) (Copies.other pa (rw t refl) rest)
  ]

  by_kind-Copies :
      (kind : EntryKind)
      → pa.entry.kind ≡ kind
      → is_skip pa.action ≡ false
      → (is_file pa.entry ≡ true → (hard_links ≡ false) ⊎ (¬ Seen (source_id pa) earlier))
      → Copies hard_links earlier
          (pa ∷ actions)
          (note_dir pa.entry (by_kind pa.entry kind pa.action work)).files
  by_kind-Copies EntryKind.dir e f new =
      rw (ap kind_is_dir e) (Copies.other pa (rw (f, ap kind_is_file e) refl) rest)
  by_kind-Copies EntryKind.file e f new =
      rw (ap kind_is_dir e)
        (Copies.copy pa (rw (f, ap kind_is_file e) refl) (new (ap kind_is_file e)) rest)
  by_kind-Copies (EntryKind.symlink target) e f new =
      rw (ap kind_is_dir e) (Copies.other pa (rw (f, ap kind_is_file e) refl) rest)

  to_do-Copies :
      (canonical : Option RelPath)
      → is_skip pa.action ≡ false
      → (canonical ≡ none
          → is_file pa.entry ≡ true
          → (hard_links ≡ false) ⊎ (¬ Seen (source_id pa) earlier))
      → ((c : RelPath) → canonical ≡ some c → (hard_links ≡ true) × Seen (source_id pa) earlier)
      → Copies hard_links earlier
          (pa ∷ actions)
          (note_dir pa.entry (to_do pa.entry pa.action canonical work)).files
  to_do-Copies none f new old = by_kind-Copies pa.entry.kind refl f (new refl)
  to_do-Copies (some c) f new old = elim (Bool-cases (is_dir pa.entry)) [
    | inl d ↦ rw d (Copies.again pa (old c refl).0 (old c refl).1 rest)
    | inr d ↦ rw d (Copies.again pa (old c refl).0 (old c refl).1 rest)
  ]

  pub place-Copies :
      (canonical : Option RelPath)
      → (canonical ≡ none
          → is_file pa.entry ≡ true
          → (hard_links ≡ false) ⊎ (¬ Seen (source_id pa) earlier))
      → ((c : RelPath) → canonical ≡ some c → (hard_links ≡ true) × Seen (source_id pa) earlier)
      → Copies hard_links earlier (pa ∷ actions) (place pa canonical work).files
  place-Copies canonical new old = elim (Bool-cases (is_skip pa.action)) [
    | inl t ↦ skipped-Copies canonical t
    | inr f ↦
        let placed : place pa canonical work
            ≡ note_dir pa.entry (to_do pa.entry pa.action canonical work) =
          rw f refl in
        subst (λ (w : Work). Copies hard_links earlier (pa ∷ actions) w.files) (sym placed)
          (to_do-Copies canonical f new old)
  ]

-- What the loop answers for one action, by what it remembers.
module _ (pa : PlannedAction) (first : List (FileId × RelPath)) (earlier : List PlannedAction)
    (known : Remembers true first earlier) where
  pub canonical_new :
      canonical_of true pa first ≡ none → is_file pa.entry ≡ true → ¬ Seen (source_id pa) earlier
  canonical_new n file = known.unseen (source_id pa) refl (rw file at n)

  pub canonical_old :
      (c : RelPath) → canonical_of true pa first ≡ some c → Seen (source_id pa) earlier
  canonical_old c e = elim (Bool-cases (is_file pa.entry)) [
    | inl t ↦ known.seen (source_id pa) c refl (rw t at e)
    | inr f ↦ absurd (none≢some (rw f at e))
  ]
