-- ===== src/Paths.antt =====
-- Paths relative to a tree's root, and maps keyed by them: `PathBuf`, `HashMap<PathBuf, _>` and
-- `HashSet<PathBuf>` of the Rust standard library as the program uses them.
pub mod Laws
pub mod Texts
use ripsync.Prelude.{
  ℕ, ◌+◌, ◌≡◌, Bool, true, false, ◌&&◌, ◌||◌, Option, none, some, List, [], ◌∷◌, if◌then◌else◌,
  list_eq, ltb, ◌==◌,
}

-- A relative path is its components, all plain names, and a name is its bytes.
abbrev pub RelPath : Type 0
RelPath = List (List ℕ)

unfoldable pub path_eq : RelPath → RelPath → Bool
path_eq [] [] = true
path_eq [] (_ ∷ _) = false
path_eq (_ ∷ _) [] = false
path_eq (x ∷ xs) (y ∷ ys) = list_eq x y && path_eq xs ys

-- `Path::starts_with`, by whole components.
unfoldable pub starts_with : RelPath → RelPath → Bool
starts_with path [] = true
starts_with [] (_ ∷ _) = false
starts_with (x ∷ xs) (y ∷ ys) = list_eq x y && starts_with xs ys

-- `Ord` of byte strings and of paths, component by component.
unfoldable pub name_lt : List ℕ → List ℕ → Bool
name_lt [] [] = false
name_lt [] (_ ∷ _) = true
name_lt (_ ∷ _) [] = false
name_lt (x ∷ xs) (y ∷ ys) = ltb x y || x == y && name_lt xs ys

unfoldable pub path_lt : RelPath → RelPath → Bool
unfolding name_lt
path_lt [] [] = false
path_lt [] (_ ∷ _) = true
path_lt (_ ∷ _) [] = false
path_lt (x ∷ xs) (y ∷ ys) = name_lt x y || list_eq x y && path_lt xs ys

-- `contains` of a set of paths.
unfoldable pub contains : List RelPath → RelPath → Bool
contains [] p = false
contains (q ∷ qs) p = path_eq q p || contains qs p

module _ {ℓ} {V : Type ℓ} where
  unfoldable pub lookup : RelPath → List (RelPath × V) → Option V
  lookup p [] = none
  lookup p ((q, v) ∷ m) = if path_eq q p then some v else lookup p m

  unfoldable pub insert : RelPath → V → List (RelPath × V) → List (RelPath × V)
  insert p v [] = (p, v) ∷ []
  insert p v ((q, w) ∷ m) = if path_eq q p then (p, v) ∷ m else (q, w) ∷ insert p v m

  -- Every binding of the key goes.
  unfoldable pub remove : RelPath → List (RelPath × V) → List (RelPath × V)
  remove p [] = []
  remove p ((q, w) ∷ m) = let rest = remove p m in if path_eq q p then rest else (q, w) ∷ rest
