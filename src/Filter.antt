-- ===== src/Filter.antt =====
-- crates/ripsync-core/src/filter.rs: include and exclude rules, and the `--files-from` list.
-- A pattern and a rule's text are their characters. The `globset` crate is a parameter: which
-- patterns it accepts, which sets it builds, and what a pattern matches.
mod Tests
pub mod Text
pub mod Globs
pub mod Laws
pub mod RuleText
use ripsync.Prelude.{
  ℕ, ◌+◌, ◌≤◌, ◌≡◌, Bool, true, false, not, ◌&&◌, ◌||◌, Option, none, some, List, [], ◌∷◌, ◌++◌,
  map, ok, err, if◌then◌else◌, list_eq, is_empty, ◌==◌, ◌>>=◌, ◌>>◌,
}
use ripsync.Errors.{Error, Outcome, filter}
use ripsync.Filter.Text.{trim, split_once, has_double_star, paths_contain}

pub record Globset : Type 0 where
  pub glob_valid : List ℕ → Bool
  pub set_valid : List (List ℕ) → Bool
  pub glob_match : List ℕ → List ℕ → Bool

pub record Rule : Type 0 where
  pub is_include : Bool
  pub set : List (List ℕ)

-- `Filter`, with its `Inner`. A relative path is its text; two are equal by components.
pub record Filter : Type 0 where
  pub rules : List Rule
  pub files_from : Option (List (List ℕ))

pub record FilterBuilder : Type 0 where
  pub filters : List (Bool × List ℕ)
  pub includes : List (List ℕ)
  pub excludes : List (List ℕ)
  pub files_from : Option (List (List ℕ))

-- `FilterBuilder::default()`
abbrev pub no_rules : FilterBuilder
no_rules = record { filters = []; includes = []; excludes = []; files_from = none }

-- `FilterBuilder::filter_rule`
unfoldable pub filter_rule : FilterBuilder → List ℕ → Outcome FilterBuilder
filter_rule b rule = elim (split_once (trim rule)) [
  | none ↦ err filter
  | some (sign, pat) ↦
      if list_eq sign (b'+' ∷ [])
      then ok (record b { filters = b.filters ++ ((true, trim pat) ∷ []) })
      else (if list_eq sign (b'-' ∷ [])
          then ok (record b { filters = b.filters ++ ((false, trim pat) ∷ []) })
          else err filter)
]

unfoldable pub include : FilterBuilder → List ℕ → FilterBuilder
include b pat = record b { includes = b.includes ++ (pat ∷ []) }

unfoldable pub exclude : FilterBuilder → List ℕ → FilterBuilder
exclude b pat = record b { excludes = b.excludes ++ (pat ∷ []) }

unfoldable pub files_from : FilterBuilder → List (List ℕ) → FilterBuilder
files_from b paths = record b { files_from = some paths }

module _ (g : Globset) where
  -- The closure `add`: the globs go in one by one, and the first that is invalid ends the call.
  unfoldable pub add_globs : List (List ℕ) → List (List ℕ) → Outcome (List (List ℕ))
  add_globs [] set = ok set
  add_globs (pat ∷ pats) set =
      let rest = add_globs pats (set ++ (pat ∷ [])) in if g.glob_valid pat then rest else err filter

  -- `pat`, `**/pat`, `pat/**` and `**/pat/**`, or `pat` alone if it has `**` in it.
  abbrev pub globs_of : List ℕ → List (List ℕ)
  globs_of pat =
      pat
      ∷ (if has_double_star pat
          then []
          else (b'*' ∷ b'*' ∷ b'/' ∷ pat)
            ∷ (pat ++ (b'/' ∷ b'*' ∷ b'*' ∷ []))
            ∷ ((b'*' ∷ b'*' ∷ b'/' ∷ pat) ++ (b'/' ∷ b'*' ∷ b'*' ∷ []))
            ∷ [])

  unfoldable pub compile_rule : Bool → List ℕ → Outcome Rule
  unfolding add_globs
  compile_rule is_include pat = do
    set ← add_globs (globs_of pat) []
    if g.set_valid set then ok (record { is_include = is_include; set = set }) else err filter

  -- The three loops of `build`, over patterns with their signs.
  unfoldable pub compile_rules : List (Bool × List ℕ) → List Rule → Outcome (List Rule)
  unfolding compile_rule
  compile_rules [] rules = ok rules
  compile_rules ((is_include, pat) ∷ pats) rules = do
    rule ← compile_rule is_include pat
    compile_rules pats (rules ++ (rule ∷ []))

  abbrev pub signed : Bool → List (List ℕ) → List (Bool × List ℕ)
  signed is_include = map (λ pat. (is_include, pat))

  unfoldable pub build : FilterBuilder → Outcome Filter
  unfolding compile_rules
  build b = do
    by_filter ← compile_rules b.filters []
    by_include ← compile_rules (signed true b.includes) by_filter
    rules ← compile_rules (signed false b.excludes) by_include
    ok (record { rules = rules; files_from = b.files_from })

  -- `GlobSet::is_match`: some glob of the set matches.
  abbrev pub set_match : List (List ℕ) → List ℕ → Bool
  set_match [] rel = false
  set_match (glob ∷ set) rel = g.glob_match glob rel || set_match set rel

  -- The loop over the rules: the first that matches decides.
  unfoldable pub excluded_by : List Rule → List ℕ → Bool
  excluded_by [] rel = false
  excluded_by (rule ∷ rules) rel =
      let rest = excluded_by rules rel in
      if set_match rule.set rel then not rule.is_include else rest

  unfoldable pub is_excluded : Filter → List ℕ → Bool → Bool
  unfolding excluded_by
  is_excluded f rel true = false
  is_excluded f rel false = elim f.files_from [
    | some allow ↦ not (paths_contain allow rel)
    | none ↦ excluded_by f.rules rel
  ]

-- `Filter::is_empty`
unfoldable pub drops_nothing : Filter → Bool
drops_nothing f = is_empty f.rules && elim f.files_from [ none ↦ true | some _ ↦ false ]
