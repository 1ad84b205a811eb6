-- ===== src/Filter/Globs.antt =====
-- filter.rs: what a pattern matches, by the globs that stand for it, and what a list of paths holds.
use ripsync.Prelude.{
  ℕ, ◌≡◌, refl, ap, sym, ◌∙◌, arith, ◌==◌, ==_iff, Bool, true, false, ◌&&◌, ◌||◌, List, [], ◌∷◌,
  ◌++◌, Bool-cases, ◌↔◌, ◌⊎◌, inl, inr,
}
use mathlib.Core.Bool.{true≢false}
use ripsync.Paths.Texts.{components, path_text_eq, path_text_eq→eq, eq→path_text_eq}
use ripsync.Filter.Text.{has_double_star, paths_contain}
use ripsync.Filter.{Globset, globs_of, set_match}

-- Two stars stand next to each other in the pattern.
abbrev pub Starred : List ℕ → Type 0
Starred pat = (before after : List ℕ) × (pat ≡ before ++ (b'*' ∷ b'*' ∷ after))

has_double_star-Starred : (pat : List ℕ) → has_double_star pat ≡ true → Starred pat
unfolding has_double_star
has_double_star-Starred [] h = absurd (true≢false (sym h))
has_double_star-Starred (c ∷ []) h = absurd (true≢false (sym h))
has_double_star-Starred (c ∷ d ∷ text) h = elim (Bool-cases (c == b'*' && d == b'*')) [
  | inl t ↦
      let first = (==_iff c b'*').0 (ground arith) in
      let second = (==_iff d b'*').0 (ground arith) in ([], text, λ i. first i ∷ second i ∷ text)
  | inr f ↦
      let (before, after, e) = has_double_star-Starred (d ∷ text) (rw f at h) in
      (c ∷ before, after, ap (◌∷◌ c) e)
]

Starred-has_double_star :
    (before after : List ℕ) → has_double_star (before ++ (b'*' ∷ b'*' ∷ after)) ≡ true
unfolding has_double_star
Starred-has_double_star [] after = refl
Starred-has_double_star (c ∷ []) after = ground arith
Starred-has_double_star (c ∷ d ∷ before) after =
    ground (arith, Starred-has_double_star (d ∷ before) after)

-- A path with the same components stands in the list.
abbrev pub Listed : List (List ℕ) → List ℕ → Type 0
Listed [] rel = ⊥
Listed (path ∷ paths) rel = (components path ≡ components rel) ⊎ Listed paths rel

paths_contain→Listed :
    (paths : List (List ℕ)) (rel : List ℕ) → paths_contain paths rel ≡ true → Listed paths rel
unfolding paths_contain
paths_contain→Listed [] rel h = absurd (true≢false (sym h))
paths_contain→Listed (path ∷ paths) rel h = elim (Bool-cases (path_text_eq path rel)) [
  | inl t ↦ inl (path_text_eq→eq path rel t)
  | inr f ↦ inr (paths_contain→Listed paths rel (rw f at h))
]

Listed→paths_contain :
    (paths : List (List ℕ)) (rel : List ℕ) → Listed paths rel → paths_contain paths rel ≡ true
unfolding paths_contain
Listed→paths_contain [] rel l = absurd l
Listed→paths_contain (path ∷ paths) rel (inl e) = rw (eq→path_text_eq path rel e) refl
Listed→paths_contain (path ∷ paths) rel (inr l) =
    let rest = Listed→paths_contain paths rel l in ground arith

pub paths_contain-Listed :
    (paths : List (List ℕ)) (rel : List ℕ) → (paths_contain paths rel ≡ true) ↔ Listed paths rel
paths_contain-Listed paths rel = (paths_contain→Listed paths rel, Listed→paths_contain paths rel)

module _ (g : Globset) where
  -- A pattern matches as it stands, or, where it has no `**`, behind any directories, as a directory
  -- that the path is in, or as both.
  abbrev pub Matched : List ℕ → List ℕ → Type 0
  Matched pat rel =
      (g.glob_match pat rel ≡ true)
      ⊎ ((¬ Starred pat)
          × ((g.glob_match (b'*' ∷ b'*' ∷ b'/' ∷ pat) rel ≡ true)
              ⊎ (g.glob_match (pat ++ (b'/' ∷ b'*' ∷ b'*' ∷ [])) rel ≡ true)
              ⊎ (g.glob_match (b'*' ∷ b'*' ∷ b'/' ∷ (pat ++ (b'/' ∷ b'*' ∷ b'*' ∷ []))) rel
                  ≡ true)))

  or_false : (a : Bool) → (a || false) ≡ a
  or_false true = refl
  or_false false = refl

  alone : (pat rel : List ℕ) → Starred pat → has_double_star pat ≡ true
  alone pat rel (before, after, e) = ap has_double_star e ∙ Starred-has_double_star before after

  one_of :
      (a b c d : Bool) {N : Type 0}
      → N
      → (a || (b || (c || (d || false)))) ≡ true
      → (a ≡ true) ⊎ (N × ((b ≡ true) ⊎ (c ≡ true) ⊎ (d ≡ true)))
  one_of true b c d n h = inl refl
  one_of false true c d n h = inr (n, inl refl)
  one_of false false true d n h = inr (n, inr (inl refl))
  one_of false false false true n h = inr (n, inr (inr refl))
  one_of false false false false n h = absurd (true≢false (sym h))

  some_of :
      (a b c d : Bool)
      → (a ≡ true) ⊎ ((b ≡ true) ⊎ (c ≡ true) ⊎ (d ≡ true))
      → (a || (b || (c || (d || false)))) ≡ true
  some_of a b c d (inl h) = rw h refl
  some_of a b c d (inr (inl h)) = ground arith
  some_of a b c d (inr (inr (inl h))) = ground arith
  some_of a b c d (inr (inr (inr h))) = ground arith

  set_match→Matched : (pat rel : List ℕ) → set_match g (globs_of g pat) rel ≡ true → Matched pat rel
  set_match→Matched pat rel h = elim (Bool-cases (has_double_star pat)) [
    | inl t ↦ inl (sym (or_false (g.glob_match pat rel)) ∙ rw t at h)
    | inr f ↦
        one_of (g.glob_match pat rel) _ _ _
          (λ (s : Starred pat). true≢false (sym (alone pat rel s) ∙ f)) (rw f at h)
  ]

  Matched→set_match : (pat rel : List ℕ) → Matched pat rel → set_match g (globs_of g pat) rel ≡ true
  Matched→set_match pat rel (inl h) = rw h refl
  Matched→set_match pat rel (inr (none_starred, m)) = elim (Bool-cases (has_double_star pat)) [
    | inl t ↦ absurd (none_starred (has_double_star-Starred pat t))
    | inr f ↦ rw f (some_of (g.glob_match pat rel) _ _ _ (inr m))
  ]

  pub set_match-Matched :
      (pat rel : List ℕ) → (set_match g (globs_of g pat) rel ≡ true) ↔ Matched pat rel
  set_match-Matched pat rel = (set_match→Matched pat rel, Matched→set_match pat rel)
