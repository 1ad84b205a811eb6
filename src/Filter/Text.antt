-- ===== src/Filter/Text.antt =====
-- filter.rs: the operations of Rust's `str` and `HashSet` that the filter uses.
use ripsync.Prelude.{
  ℕ, Bool, false, ◌&&◌, ◌||◌, Option, none, some, List, [], ◌∷◌, if◌then◌else◌, ◌==◌, leb,
}
use ripsync.Paths.Texts.{path_text_eq}

-- `char::is_whitespace`: the code points with the property White_Space.
unfoldable pub is_whitespace : ℕ → Bool
is_whitespace c =
    leb 9 c && leb c 13
    || c == 32
    || c == 0x85
    || c == 0xa0
    || c == 0x1680
    || leb 0x2000 c && leb c 0x200a
    || c == 0x2028
    || c == 0x2029
    || c == 0x202f
    || c == 0x205f
    || c == 0x3000

unfoldable pub trim_start : List ℕ → List ℕ
trim_start [] = []
trim_start (c ∷ text) = let rest = trim_start text in if is_whitespace c then rest else c ∷ text

-- A character stays if it is no blank or one behind it stays.
unfoldable pub trim_end : List ℕ → List ℕ
trim_end [] = []
trim_end (c ∷ text) = elim (trim_end text) [
  | [] ↦ if is_whitespace c then [] else c ∷ []
  | d ∷ rest ↦ c ∷ d ∷ rest
]

unfoldable pub trim : List ℕ → List ℕ
unfolding trim_start trim_end is_whitespace
trim text = trim_end (trim_start text)

-- `split_once(char::is_whitespace)`: the text before and behind the first blank.
unfoldable pub split_once : List ℕ → Option (List ℕ × List ℕ)
unfolding is_whitespace
split_once [] = none
split_once (c ∷ text) =
    let rest = split_once text in
    if is_whitespace c
    then some ([], text)
    else elim rest [ none ↦ none | some (before, after) ↦ some (c ∷ before, after) ]

-- `contains("**")`
unfoldable pub has_double_star : List ℕ → Bool
has_double_star [] = false
has_double_star (c ∷ []) = false
has_double_star (c ∷ d ∷ text) = c == b'*' && d == b'*' || has_double_star (d ∷ text)

-- `HashSet::contains` of a set of `PathBuf`s
unfoldable pub paths_contain : List (List ℕ) → List ℕ → Bool
paths_contain [] rel = false
paths_contain (path ∷ paths) rel = path_text_eq path rel || paths_contain paths rel
