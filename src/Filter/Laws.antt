-- ===== src/Filter/Laws.antt =====
-- filter.rs: what a built filter excludes, in terms of the patterns it was built from.
use ripsync.Prelude.{ℕ, Bool, true, false, not, List, [], ◌∷◌, ◌++◌, if◌then◌else◌}
use ripsync.Filter.{Globset, Rule, Filter, FilterBuilder, globs_of, signed, set_match}

module _ (g : Globset) where
  -- A pattern matches by one of its globs.
  abbrev pub pattern_match : List ℕ → List ℕ → Bool
  pattern_match pat rel = set_match g (globs_of g pat) rel

  -- The first pattern that matches decides; a path that none matches is kept.
  abbrev pub first_match : List (Bool × List ℕ) → List ℕ → Bool
  first_match [] rel = false
  first_match ((is_include, pat) ∷ pats) rel =
      if pattern_match pat rel then not is_include else first_match pats rel

  -- The rule that a pattern with its sign compiles to.
  abbrev rule_of : Bool × List ℕ → Rule
  rule_of (is_include, pat) = record { is_include = is_include; set = globs_of g pat }

  -- The patterns of a builder in the order of their precedence: `--filter`, include, exclude.
  abbrev pub by_precedence : FilterBuilder → List (Bool × List ℕ)
  by_precedence b = b.filters ++ (signed g true b.includes ++ signed g false b.excludes)
