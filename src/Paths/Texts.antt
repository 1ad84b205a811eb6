-- ===== src/Paths/Texts.antt =====
-- Paths as `std::path::Path` of Unix sees a text, and the equality of two `PathBuf`s, which is that
-- of their components.
use ripsync.Prelude.{
  ℕ, ◌≡◌, refl, arith, ◌==◌, Bool, true, false, ◌&&◌, List, [], ◌∷◌, ◌++◌, if◌then◌else◌, list_eq,
  list_eq→eq, list_eq_self, ap, sym, ◌∙◌,
}
use ripsync.Errors.{Component, normal, cur_dir, parent_dir, root_dir, FilePath}

-- Equality of two paths, by components.
abbrev pub component_eq : Component → Component → Bool
component_eq (normal a) (normal b) = list_eq a b
component_eq cur_dir cur_dir = true
component_eq parent_dir parent_dir = true
component_eq root_dir root_dir = true
component_eq _ _ = false

unfoldable pub file_path_eq : FilePath → FilePath → Bool
file_path_eq [] [] = true
file_path_eq (x ∷ xs) (y ∷ ys) = component_eq x y && file_path_eq xs ys
file_path_eq _ _ = false

abbrev in_front : ℕ → List (List ℕ) → List (List ℕ)
in_front c [] = (c ∷ []) ∷ []
in_front c (piece ∷ rest) = (c ∷ piece) ∷ rest

-- The pieces of a text between its slashes.
unfoldable pub pieces : List ℕ → List (List ℕ)
pieces [] = [] ∷ []
pieces (c ∷ text) = let rest = pieces text in if c == b'/' then [] ∷ rest else in_front c rest

-- An empty piece and a dot are no component.
abbrev pub component_of : List ℕ → FilePath
component_of [] = []
component_of (c ∷ piece) =
    if list_eq (c ∷ piece) (b'.' ∷ [])
    then []
    else (if list_eq (c ∷ piece) (b'.' ∷ b'.' ∷ [])
        then parent_dir ∷ []
        else normal (c ∷ piece) ∷ [])

unfoldable pub components_of : List (List ℕ) → FilePath
components_of [] = []
components_of (piece ∷ rest) = component_of piece ++ components_of rest

-- A dot is a component where a relative path begins with it.
abbrev pub relative_components : List (List ℕ) → FilePath
relative_components [] = []
relative_components (piece ∷ rest) =
    if list_eq piece (b'.' ∷ []) then cur_dir ∷ components_of rest else components_of (piece ∷ rest)

abbrev pub is_rooted : List ℕ → Bool
is_rooted [] = false
is_rooted (c ∷ _) = c == b'/'

-- `Path::components`
unfoldable pub components : List ℕ → FilePath
unfolding pieces components_of
components text =
    if is_rooted text
    then root_dir ∷ components_of (pieces text)
    else relative_components (pieces text)

-- `==` of two `PathBuf`s
unfoldable pub path_text_eq : List ℕ → List ℕ → Bool
unfolding components file_path_eq
path_text_eq a b = file_path_eq (components a) (components b)

component_eq→eq : (x y : Component) → component_eq x y ≡ true → x ≡ y
component_eq→eq (normal a) (normal b) h = ap normal (list_eq→eq a b h)
component_eq→eq cur_dir cur_dir h = refl
component_eq→eq parent_dir parent_dir h = refl
component_eq→eq root_dir root_dir h = refl
component_eq→eq _ _ h = ground arith

file_path_eq→eq : (xs ys : FilePath) → file_path_eq xs ys ≡ true → xs ≡ ys
unfolding file_path_eq
file_path_eq→eq [] [] h = refl
file_path_eq→eq (x ∷ xs) (y ∷ ys) h =
    let first = component_eq→eq x y (ground arith) in
    let rest = file_path_eq→eq xs ys (ground arith) in λ i. first i ∷ rest i
file_path_eq→eq _ _ h = ground arith

component_eq_self : (x : Component) → component_eq x x ≡ true
component_eq_self (normal a) = list_eq_self a
component_eq_self cur_dir = refl
component_eq_self parent_dir = refl
component_eq_self root_dir = refl

file_path_eq_self : (xs : FilePath) → file_path_eq xs xs ≡ true
unfolding file_path_eq
file_path_eq_self [] = refl
file_path_eq_self (x ∷ xs) = rw (component_eq_self x) (file_path_eq_self xs)

pub eq→path_text_eq : (a b : List ℕ) → components a ≡ components b → path_text_eq a b ≡ true
unfolding path_text_eq
eq→path_text_eq a b e = ap (file_path_eq (components a)) (sym e) ∙ file_path_eq_self (components a)

pub path_text_eq→eq : (a b : List ℕ) → path_text_eq a b ≡ true → components a ≡ components b
unfolding path_text_eq
path_text_eq→eq a b h = file_path_eq→eq (components a) (components b) h

trailing_slash : path_text_eq (b'd' ∷ b'/' ∷ []) (b'd' ∷ []) ≡ true
unfolding path_text_eq list_eq
trailing_slash = refl

inner_dot :
    path_text_eq (b'a' ∷ b'/' ∷ b'.' ∷ b'/' ∷ b'b' ∷ []) (b'a' ∷ b'/' ∷ b'/' ∷ b'b' ∷ []) ≡ true
unfolding path_text_eq list_eq
inner_dot = refl

leading_dot : path_text_eq (b'.' ∷ b'/' ∷ b'a' ∷ []) (b'a' ∷ []) ≡ false
unfolding path_text_eq list_eq
leading_dot = refl
