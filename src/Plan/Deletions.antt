-- ===== src/Plan/Deletions.antt =====
-- The deletions of a plan: which paths they are, and their order.
use mathlib.Core.Path.{subst}
use ripsync.Prelude.{
  ◌≡◌, refl, sym, ◌∙◌, arith, true, false, not, ◌&&◌, ◌||◌, List, [], ◌∷◌, All, Bool-cases, inl,
  inr,
}
use ripsync.Paths.{RelPath, path_eq, path_lt, starts_with, contains}
use ripsync.Paths.Laws.{path_eq→eq}
use ripsync.Entries.{Entry, Deletion}
use ripsync.Plan.{insert_deletion, sort_deletions, missing_in, deletions_of, rels}
use ripsync.Plan.Order.{path_lt_asym, path_lt_cotrans, starts_with→above}

abbrev pub deletion_rels : List Deletion → List RelPath
deletion_rels [] = []
deletion_rels (d ∷ ds) = d.rel ∷ deletion_rels ds

contains-insert_deletion :
    (d : Deletion) (ds : List Deletion) (p : RelPath)
    → contains (deletion_rels (insert_deletion d ds)) p
      ≡ path_eq d.rel p || contains (deletion_rels ds) p
unfolding insert_deletion contains
contains-insert_deletion d [] p = refl
contains-insert_deletion d (e ∷ ds) p = ground (arith, contains-insert_deletion d ds p)

pub contains-sort_deletions :
    (ds : List Deletion) (p : RelPath)
    → contains (deletion_rels (sort_deletions ds)) p ≡ contains (deletion_rels ds) p
unfolding sort_deletions contains
contains-sort_deletions [] p = refl
contains-sort_deletions (d ∷ ds) p =
    ground (arith, contains-insert_deletion d (sort_deletions ds) p, contains-sort_deletions ds p)

contains-missing_in :
    (src_set : List RelPath) (ds : List Entry) (p : RelPath)
    → contains (deletion_rels (missing_in src_set ds)) p
      ≡ contains (rels ds) p && not (contains src_set p)
unfolding missing_in contains
contains-missing_in src_set [] p = refl
contains-missing_in src_set (d ∷ ds) p = elim (Bool-cases (path_eq d.rel p)) [
  | inl e ↦ ground (arith, contains-missing_in src_set ds p, path_eq→eq d.rel p)
  | inr e ↦ ground (arith, contains-missing_in src_set ds p)
]

-- The paths deleted are those that the destination has and the source has not.
pub contains-deletions_of :
    (src_entries dst_entries : List Entry) (p : RelPath)
    → contains (deletion_rels (deletions_of src_entries dst_entries)) p
      ≡ contains (rels dst_entries) p && not (contains (rels src_entries) p)
unfolding deletions_of
contains-deletions_of src_entries dst_entries p =
    contains-sort_deletions (missing_in (rels src_entries) dst_entries) p
    ∙ contains-missing_in (rels src_entries) dst_entries p

-- No path of the list stands before one that is above it.
abbrev IsDescending : List Deletion → Type 0
IsDescending [] = Unit
IsDescending (d ∷ ds) = All (λ (e : Deletion). path_lt d.rel e.rel ≡ false) ds × IsDescending ds

-- Nothing stands behind a directory that it lies in.
abbrev pub ChildrenFirst : List Deletion → Type 0
ChildrenFirst [] = Unit
ChildrenFirst (d ∷ ds) =
    All (λ (e : Deletion). starts_with e.rel d.rel ≡ true → e.rel ≡ d.rel) ds × ChildrenFirst ds

insert_deletion_later :
    (d e : Deletion) (ds : List Deletion)
    → path_lt d.rel e.rel ≡ true
    → insert_deletion d (e ∷ ds) ≡ e ∷ insert_deletion d ds
unfolding insert_deletion
insert_deletion_later d e ds h = rw (h)

insert_deletion_here :
    (d e : Deletion) (ds : List Deletion)
    → path_lt d.rel e.rel ≡ false
    → insert_deletion d (e ∷ ds) ≡ d ∷ e ∷ ds
unfolding insert_deletion
insert_deletion_here d e ds h = rw (h)

All-insert_deletion :
    (P : Deletion → Type 0) (d : Deletion) (ds : List Deletion)
    → P d
    → All P ds
    → All P (insert_deletion d ds)
unfolding insert_deletion
All-insert_deletion P d [] p ps = (p, tt)
All-insert_deletion P d (e ∷ ds) p (q, qs) = elim (Bool-cases (path_lt d.rel e.rel)) [
  | inl t ↦
      subst (All P) (sym (insert_deletion_later d e ds t)) (q, All-insert_deletion P d ds p qs)
  | inr f ↦ subst (All P) (sym (insert_deletion_here d e ds f)) (p, (q, qs))
]

All-below :
    (d e : Deletion) (ds : List Deletion)
    → path_lt d.rel e.rel ≡ false
    → All (λ (x : Deletion). path_lt e.rel x.rel ≡ false) ds
    → All (λ (x : Deletion). path_lt d.rel x.rel ≡ false) ds
All-below d e [] h _ = tt
All-below d e (x ∷ ds) h (p, ps) = (path_lt_cotrans d.rel e.rel x.rel h p, All-below d e ds h ps)

insert_deletion-IsDescending :
    (d : Deletion) (ds : List Deletion) → IsDescending ds → IsDescending (insert_deletion d ds)
unfolding insert_deletion
insert_deletion-IsDescending d [] _ = (tt, tt)
insert_deletion-IsDescending d (e ∷ ds) (p, ps) = elim (Bool-cases (path_lt d.rel e.rel)) [
  | inl t ↦ subst IsDescending (sym (insert_deletion_later d e ds t)) (
    All-insert_deletion _ d ds (path_lt_asym d.rel e.rel t) p,
    insert_deletion-IsDescending d ds ps,
  )
  | inr f ↦
      subst IsDescending (sym (insert_deletion_here d e ds f)) ((f, All-below d e ds f p), (p, ps))
]

sort_deletions-IsDescending : (ds : List Deletion) → IsDescending (sort_deletions ds)
unfolding sort_deletions
sort_deletions-IsDescending [] = tt
sort_deletions-IsDescending (d ∷ ds) =
    insert_deletion-IsDescending d (sort_deletions ds) (sort_deletions-IsDescending ds)

All-inside :
    (d : Deletion) (ds : List Deletion)
    → All (λ (e : Deletion). path_lt d.rel e.rel ≡ false) ds
    → All (λ (e : Deletion). starts_with e.rel d.rel ≡ true → e.rel ≡ d.rel) ds
All-inside d [] _ = tt
All-inside d (e ∷ ds) (p, ps) = (λ s. starts_with→above e.rel d.rel s p, All-inside d ds ps)

IsDescending→ChildrenFirst : (ds : List Deletion) → IsDescending ds → ChildrenFirst ds
IsDescending→ChildrenFirst [] _ = tt
IsDescending→ChildrenFirst (d ∷ ds) (p, ps) = (All-inside d ds p, IsDescending→ChildrenFirst ds ps)

-- However the deletions were found, sorting them puts all that a directory holds before it.
pub sort_deletions-ChildrenFirst : (ds : List Deletion) → ChildrenFirst (sort_deletions ds)
sort_deletions-ChildrenFirst ds =
    IsDescending→ChildrenFirst (sort_deletions ds) (sort_deletions-IsDescending ds)
