-- ===== src/Verify/Run/Links.antt =====
-- What a loop over hard links that reports nothing has seen.
use ripsync.Prelude.{
  ◌≡◌, sym, ap, ◌∙◌, arith, none, some, List, [], ◌∷◌, ◌++◌, All, Option-cases, Bool-cases, inl,
  inr,
}
use ripsync.Paths.{RelPath}
use ripsync.Entries.{Entry}
use ripsync.Plan.{FileId, id_eq}
use ripsync.Plan.Hardlinks.{id_eq→eq}
use ripsync.Verify.{VerificationMismatch}
use ripsync.Verify.Run.{find_group, entry_id, link_problem, linked_to, link_problems}

find_group_self :
    (id v : FileId) (groups : List (FileId × FileId)) → find_group id ((id, v) ∷ groups) ≡ some v
unfolding find_group
find_group_self (d, i) v groups = ground arith

some-injective : {A : Type 0} {a b : A} → some a ≡ some b → a ≡ b
some-injective h = cc

All-map :
    {A : Type 0} {P Q : A → Type 0} → ((a : A) → P a → Q a) → (xs : List A) → All P xs → All Q xs
All-map f [] all = tt
All-map f (x ∷ xs) all = (f x all.0, All-map f xs all.1)

none≢some : {A : Type 0} {a : A} → ¬ (none ≡ some a)
none≢some h = cc

find_group_kept :
    (key id v x : FileId) (groups : List (FileId × FileId))
    → find_group key groups ≡ none
    → find_group id groups ≡ some x
    → find_group id ((key, v) ∷ groups) ≡ some x
unfolding find_group
find_group_kept (d, i) (e, j) v x groups h g = elim (Bool-cases (id_eq (d, i) (e, j))) [
  | inl same ↦
      let q : ◌≡◌ {A = FileId} (d, i) (e, j) = id_eq→eq (d, i) (e, j) same in
      absurd (none≢some (sym h ∙ ap (λ (key : FileId). find_group key groups) q ∙ g))
  | inr differ ↦ ground arith
]

module _ (destination : List (RelPath × Entry)) where
  -- The file that an entry is in the destination has the identity `x` where one was noted.
  abbrev pub Follows : List (FileId × FileId) → Entry → Type 0
  Follows groups entry =
      (found : Entry) (x : FileId)
      → linked_to destination entry ≡ some found
      → find_group (entry_id entry) groups ≡ some x
      → entry_id found ≡ x

  -- Two files of one source inode are one file of the destination.
  abbrev pub SameFile : Entry → Entry → Type 0
  SameFile a b =
      (c d : Entry)
      → linked_to destination a ≡ some c
      → linked_to destination b ≡ some d
      → entry_id a ≡ entry_id b
      → entry_id c ≡ entry_id d

  abbrev pub Linked : List Entry → Type 0
  Linked [] = Unit {0}
  Linked (entry ∷ entries) = All (SameFile entry) entries × Linked entries

  unlinked :
      (groups : List (FileId × FileId)) (entry : Entry) (entries : List Entry)
      → linked_to destination entry ≡ none
      → link_problems destination groups (entry ∷ entries) ≡ []
      → link_problems destination groups entries ≡ []
  unfolding link_problems
  unlinked groups entry entries n h = rw (n, link_problems) at h

  new_group :
      (groups : List (FileId × FileId)) (entry found : Entry) (entries : List Entry)
      → linked_to destination entry ≡ some found
      → find_group (entry_id entry) groups ≡ none
      → link_problems destination groups (entry ∷ entries) ≡ []
      → link_problems destination ((entry_id entry, entry_id found) ∷ groups) entries ≡ []
  unfolding link_problems
  new_group groups entry found entries l n h = rw (l, n, link_problems) at h

  agrees :
      (rel : RelPath) (x id : FileId) (others : List VerificationMismatch)
      → link_problem rel id (some x) ++ others ≡ []
      → (x ≡ id) × (others ≡ [])
  agrees rel x id others h = elim (Bool-cases (id_eq x id)) [
    | inl t ↦ (id_eq→eq x id t, rw t at h)
    | inr f ↦ cc
  ]

  old_group :
      (groups : List (FileId × FileId)) (entry found : Entry) (x : FileId) (entries : List Entry)
      → linked_to destination entry ≡ some found
      → find_group (entry_id entry) groups ≡ some x
      → link_problems destination groups (entry ∷ entries) ≡ []
      → (x ≡ entry_id found) × (link_problems destination groups entries ≡ [])
  unfolding link_problems
  old_group groups entry found x entries l e h =
      agrees entry.rel x (entry_id found) (link_problems destination groups entries)
        (rw (l, e, link_problems) at h)

  pub link_problems-Follows :
      (groups : List (FileId × FileId)) (entries : List Entry)
      → link_problems destination groups entries ≡ []
      → All (Follows groups) entries × Linked entries
  link_problems-Follows groups [] h = (tt, tt)
  link_problems-Follows groups (entry ∷ entries) h =
      elim (Option-cases (linked_to destination entry)) [
        | inl n ↦
            let (follows, linked) =
              link_problems-Follows groups entries (unlinked groups entry entries n h) in
            (
              (λ found x l f. absurd (none≢some (sym n ∙ l)), follows),
              (All-map (λ b _ c d l. absurd (none≢some (sym n ∙ l))) entries follows, linked),
            )
        | inr (found, l) ↦ elim (Option-cases (find_group (entry_id entry) groups)) [
          | inl n ↦
              let (follows, linked) =
                link_problems-Follows ((entry_id entry, entry_id found) ∷ groups) entries
                  (new_group groups entry found entries l n h) in
              (
                (
                  λ c x k f. absurd (none≢some (sym n ∙ f)),
                  All-map
                      (λ b known d x k f. known d x k (
                        find_group_kept (entry_id entry) (entry_id b) (entry_id found) x groups n
                          f))
                      entries follows,
                ),
                (
                  All-map
                      (λ b known c d k m same.
                        ap entry_id (some-injective (sym k ∙ l))
                        ∙ sym (
                            known d (entry_id found) m (
                              ap
                                (λ (id : FileId).
                                  find_group id ((entry_id entry, entry_id found) ∷ groups))
                                (sym same)
                              ∙ find_group_self (entry_id entry) (entry_id found) groups)))
                      entries follows,
                  linked,
                ),
              )
          | inr (x, e) ↦
              let (same_x, rest) = old_group groups entry found x entries l e h in
              let (follows, linked) = link_problems-Follows groups entries rest in
              (
                (
                  λ c y k f.
                      ap entry_id (some-injective (sym k ∙ l))
                      ∙ sym same_x
                      ∙ some-injective (sym e ∙ f),
                  follows,
                ),
                (
                  All-map
                      (λ b known c d k m same.
                        ap entry_id (some-injective (sym k ∙ l))
                        ∙ sym same_x
                        ∙ sym (
                            known d x m
                              (ap (λ (id : FileId). find_group id groups) (sym same) ∙ e)))
                      entries follows,
                  linked,
                ),
              )
        ]
      ]
