-- ===== src/Paths/Laws.antt =====
-- Laws of equality, of maps and of the order of paths.
use ripsync.Prelude.{
  ◌≡◌, refl, arith, true, none, some, List, [], ◌∷◌, if◌then◌else◌, list_eq_self, list_eq→eq,
}
use ripsync.Paths.{RelPath, path_eq, lookup, insert, remove}

pub path_eq_self : (p : RelPath) → path_eq p p ≡ true
unfolding path_eq
path_eq_self [] = refl
path_eq_self (x ∷ xs) = ground (arith, list_eq_self x, path_eq_self xs)

pub path_eq→eq : (p q : RelPath) → path_eq p q ≡ true → p ≡ q
unfolding path_eq
path_eq→eq [] [] h = refl
path_eq→eq [] (y ∷ ys) h = ground arith
path_eq→eq (x ∷ xs) [] h = ground arith
path_eq→eq (x ∷ xs) (y ∷ ys) h = ground (arith, list_eq→eq x y, path_eq→eq xs ys)

module _ {ℓ} {V : Type ℓ} where
  pub lookup-insert :
      (p q : RelPath) (v : V) (m : List (RelPath × V))
      → lookup q (insert p v m) ≡ (if path_eq p q then some v else lookup q m)
  unfolding lookup insert
  lookup-insert p q v [] = refl
  lookup-insert p q v ((r, w) ∷ m) = ground (
    arith,
    path_eq→eq r p,
    path_eq→eq p q,
    path_eq→eq r q,
    path_eq_self p,
    path_eq_self q,
    lookup-insert p q v m,
  )

  pub lookup-remove :
      (p q : RelPath) (m : List (RelPath × V))
      → lookup q (remove p m) ≡ (if path_eq p q then none else lookup q m)
  unfolding lookup remove
  lookup-remove p q [] = ground arith
  lookup-remove p q ((r, w) ∷ m) = ground (
    arith,
    path_eq→eq r p,
    path_eq→eq p q,
    path_eq→eq r q,
    path_eq_self p,
    path_eq_self q,
    lookup-remove p q m,
  )
