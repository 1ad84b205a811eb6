-- ===== src/Plan/Order.antt =====
-- The order of the paths, which puts what a directory holds behind the directory.
use ripsync.Prelude.{
  ℕ, ◌≡◌, refl, arith, true, false, List, [], ◌∷◌, list_eq, list_eq_self, list_eq→eq,
}
use ripsync.Paths.{RelPath, starts_with, name_lt, path_lt}

pub name_lt_self : (a : List ℕ) → name_lt a a ≡ false
unfolding name_lt
name_lt_self [] = refl
name_lt_self (x ∷ xs) = ground (arith, name_lt_self xs)

name_lt_asym : (a b : List ℕ) → name_lt a b ≡ true → name_lt b a ≡ false
unfolding name_lt
name_lt_asym [] [] h = refl
name_lt_asym [] (y ∷ ys) h = refl
name_lt_asym (x ∷ xs) [] h = ground arith
name_lt_asym (x ∷ xs) (y ∷ ys) h = ground (arith, name_lt_asym xs ys)

name_lt_total : (a b : List ℕ) → name_lt a b ≡ false → name_lt b a ≡ false → list_eq a b ≡ true
unfolding name_lt list_eq
name_lt_total [] [] _ _ = refl
name_lt_total [] (y ∷ ys) h _ = ground arith
name_lt_total (x ∷ xs) [] _ h = ground arith
name_lt_total (x ∷ xs) (y ∷ ys) h g = ground (arith, name_lt_total xs ys)

name_lt_trans : (a b c : List ℕ) → name_lt a b ≡ true → name_lt b c ≡ true → name_lt a c ≡ true
unfolding name_lt
name_lt_trans [] [] c h g = ground arith
name_lt_trans [] (y ∷ ys) [] h g = ground arith
name_lt_trans [] (y ∷ ys) (z ∷ zs) h g = refl
name_lt_trans (x ∷ xs) [] c h g = ground arith
name_lt_trans (x ∷ xs) (y ∷ ys) [] h g = ground arith
name_lt_trans (x ∷ xs) (y ∷ ys) (z ∷ zs) h g = ground (arith, name_lt_trans xs ys zs)

pub path_lt_asym : (a b : RelPath) → path_lt a b ≡ true → path_lt b a ≡ false
unfolding path_lt
path_lt_asym [] [] h = refl
path_lt_asym [] (y ∷ ys) h = refl
path_lt_asym (x ∷ xs) [] h = ground arith
path_lt_asym (x ∷ xs) (y ∷ ys) h =
    ground
      (arith, path_lt_asym xs ys, name_lt_asym x y, list_eq→eq x y, list_eq→eq y x, name_lt_self x)

pub path_lt_trans : (a b c : RelPath) → path_lt a b ≡ true → path_lt b c ≡ true → path_lt a c ≡ true
unfolding path_lt
path_lt_trans [] [] c h g = ground arith
path_lt_trans [] (y ∷ ys) [] h g = ground arith
path_lt_trans [] (y ∷ ys) (z ∷ zs) h g = refl
path_lt_trans (x ∷ xs) [] c h g = ground arith
path_lt_trans (x ∷ xs) (y ∷ ys) [] h g = ground arith
path_lt_trans (x ∷ xs) (y ∷ ys) (z ∷ zs) h g = ground (
  arith,
  path_lt_trans xs ys zs,
  name_lt_trans x y z,
  list_eq→eq x y,
  list_eq→eq y z,
  list_eq_self x,
)

pub path_lt_total : (a b : RelPath) → path_lt a b ≡ false → path_lt b a ≡ false → a ≡ b
unfolding path_lt
path_lt_total [] [] _ _ = refl
path_lt_total [] (y ∷ ys) h _ = ground arith
path_lt_total (x ∷ xs) [] _ h = ground arith
path_lt_total (x ∷ xs) (y ∷ ys) h g =
    ground (arith, path_lt_total xs ys, name_lt_total x y, list_eq→eq x y, list_eq_self x)

pub path_lt_cotrans :
    (a b c : RelPath) → path_lt a b ≡ false → path_lt b c ≡ false → path_lt a c ≡ false
path_lt_cotrans a b c h g = ground (arith, path_lt_total a b, path_lt_trans b a c)

-- What lies strictly in a directory is above it in the order.
pub starts_with→above :
    (p dir : RelPath) → starts_with p dir ≡ true → path_lt dir p ≡ false → p ≡ dir
unfolding starts_with path_lt
starts_with→above [] [] h g = refl
starts_with→above (x ∷ xs) [] h g = ground arith
starts_with→above [] (y ∷ ys) h g = ground arith
starts_with→above (x ∷ xs) (y ∷ ys) h g =
    ground (arith, starts_with→above xs ys, list_eq→eq x y, list_eq_self x)
