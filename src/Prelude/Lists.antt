-- ===== src/Prelude/Lists.antt =====
-- Lists measured, indexed and cut by native numbers, under the library's names.
use Prim.Native.Nat.{ℕ, zero, suc, ◌+◌, ◌-◌, ◌≤◌, ◌<◌, min}
use mathlib.Core.Path.{◌≡◌, refl, sym, ap, ◌∙◌}
use mathlib.Core.List.{List, [], ◌∷◌, ◌++◌, map}
use mathlib.Core.Bool.{Bool, true, false}
use mathlib.Core.Option.{Option, none, some}
use native.Mathlib.Omega.{arith}

module _ {ℓ} {A : Type ℓ} where
  abbrev pub length : List A → ℕ
  length [] = 0
  length (x ∷ xs) = suc (length xs)

  abbrev pub get_elem? : List A → ℕ → Option A
  get_elem? [] i = none
  get_elem? (x ∷ xs) zero = some x
  get_elem? (x ∷ xs) (suc i) = get_elem? xs i

  abbrev pub take : ℕ → List A → List A
  take zero xs = []
  take (suc n) [] = []
  take (suc n) (x ∷ xs) = x ∷ take n xs

  abbrev pub drop : ℕ → List A → List A
  drop zero xs = xs
  drop (suc n) [] = []
  drop (suc n) (x ∷ xs) = drop n xs

  abbrev pub All {κ} : (A → Type κ) → List A → Type κ
  All P [] = Unit
  All P (x ∷ xs) = P x × All P xs

  pub length-append : (xs ys : List A) → length (xs ++ ys) ≡ length xs + length ys
  length-append [] ys = omega arith
  length-append (x ∷ xs) ys = omega (arith, length-append xs ys)

  pub take-append-drop : (n : ℕ) (xs : List A) → take n xs ++ drop n xs ≡ xs
  take-append-drop zero xs = refl
  take-append-drop (suc n) [] = refl
  take-append-drop (suc n) (x ∷ xs) = rw (take-append-drop n xs)

  pub length-take : (n : ℕ) (xs : List A) → length (take n xs) ≡ min n (length xs)
  length-take zero xs = omega arith
  length-take (suc n) [] = omega arith
  length-take (suc n) (x ∷ xs) = omega (arith, length-take n xs)

  pub length-drop : (n : ℕ) (xs : List A) → length (drop n xs) ≡ length xs - n
  length-drop zero xs = omega arith
  length-drop (suc n) [] = omega arith
  length-drop (suc n) (x ∷ xs) = omega (arith, length-drop n xs)

  pub drop-nil : (n : ℕ) → drop n [] ≡ []
  drop-nil zero = refl
  drop-nil (suc n) = refl

  pub take-nil : (n : ℕ) → take n [] ≡ []
  take-nil zero = refl
  take-nil (suc n) = refl

module _ {ℓ} {A : Type ℓ} where
  pub drop_cong : (xs : List A) {m n : ℕ} → m ≡ n → drop m xs ≡ drop n xs
  drop_cong xs e = rw e

  pub drop-drop : (n m : ℕ) (xs : List A) → drop n (drop m xs) ≡ drop (m + n) xs
  drop-drop n zero xs = drop_cong xs (omega arith)
  drop-drop n (suc m) [] = drop-nil n ∙ rw drop-nil
  drop-drop n (suc m) (x ∷ xs) =
      drop-drop n m xs ∙ drop_cong (x ∷ xs) {m = suc (m + n)} (omega arith)

  pub take_cong : (xs : List A) {m n : ℕ} → m ≡ n → take m xs ≡ take n xs
  take_cong xs e = rw e

  pub take_of_le : (n : ℕ) (xs : List A) → length xs ≤ n → take n xs ≡ xs
  take_of_le zero [] h = refl
  take_of_le zero (x ∷ xs) h = absurd (omega arith)
  take_of_le (suc n) [] h = refl
  take_of_le (suc n) (x ∷ xs) h = rw (take_of_le n xs (omega arith))

  pub drop_of_le : (n : ℕ) (xs : List A) → length xs ≤ n → drop n xs ≡ []
  drop_of_le zero [] h = refl
  drop_of_le zero (x ∷ xs) h = absurd (omega arith)
  drop_of_le (suc n) [] h = refl
  drop_of_le (suc n) (x ∷ xs) h = drop_of_le n xs (omega arith)

  pub take-append_left : (n : ℕ) (xs ys : List A) → n ≤ length xs → take n (xs ++ ys) ≡ take n xs
  take-append_left zero xs ys h = refl
  take-append_left (suc n) [] ys h = absurd (omega arith)
  take-append_left (suc n) (x ∷ xs) ys h = rw (take-append_left n xs ys (omega arith))

  pub take-append_all : (xs ys : List A) → take (length xs) (xs ++ ys) ≡ xs
  take-append_all [] ys = refl
  take-append_all (x ∷ xs) ys = rw (take-append_all xs ys)

  pub drop-append_all : (xs ys : List A) → drop (length xs) (xs ++ ys) ≡ ys
  drop-append_all [] ys = refl
  drop-append_all (x ∷ xs) ys = drop-append_all xs ys

  pub take-append_right :
      (n : ℕ) (xs ys : List A) → take (length xs + n) (xs ++ ys) ≡ xs ++ take n ys
  take-append_right n [] ys = take_cong ys {m = 0 + n} (omega arith)
  take-append_right n (x ∷ xs) ys =
      take_cong (x ∷ (xs ++ ys)) {n = suc (length xs + n)} (omega arith)
      ∙ ap (◌∷◌ x) (take-append_right n xs ys)

  pub take_past :
      (k n : ℕ) (xs ys : List A) → length xs ≡ n → n ≤ k → take k (xs ++ ys) ≡ xs ++ take (k - n) ys
  take_past k n xs ys e h =
      take_cong (xs ++ ys) {n = length xs + (k - n)} (omega arith) ∙ take-append_right (k - n) xs ys

  pub take-min-length : (n : ℕ) (xs : List A) → take (min n (length xs)) xs ≡ take n xs
  take-min-length zero xs = take_cong xs {n = 0} (omega arith)
  take-min-length (suc n) [] = take-nil (min (suc n) 0)
  take-min-length (suc n) (x ∷ xs) =
      take_cong (x ∷ xs) {n = suc (min n (length xs))} (omega arith)
      ∙ ap (◌∷◌ x) (take-min-length n xs)

  -- `l[from..to]`
  abbrev pub slice : ℕ → ℕ → List A → List A
  slice from to l = take (to - from) (drop from l)

  abbrev pub is_empty : List A → Bool
  is_empty [] = true
  is_empty (x ∷ xs) = false

  pub is_empty_nil : (xs : List A) → length xs ≡ 0 → is_empty xs ≡ true
  is_empty_nil [] h = refl
  is_empty_nil (x ∷ xs) h = absurd (omega arith)

  pub is_empty_cons : (xs : List A) → 0 < length xs → is_empty xs ≡ false
  is_empty_cons [] h = absurd (omega arith)
  is_empty_cons (x ∷ xs) h = refl

  pub take-append-take-drop :
      (m n : ℕ) (xs : List A) → take m xs ++ take n (drop m xs) ≡ take (m + n) xs
  take-append-take-drop zero n xs = take_cong xs (omega arith)
  take-append-take-drop (suc m) n [] = take-nil n ∙ sym (take-nil (suc m + n))
  take-append-take-drop (suc m) n (x ∷ xs) =
      ap (◌∷◌ x) (take-append-take-drop m n xs) ∙ take_cong (x ∷ xs) {m = suc (m + n)} (omega arith)

  -- A prefix grows by the slice behind it.
  pub take-append-slice :
      (from to : ℕ) (xs : List A) → from ≤ to → take from xs ++ slice from to xs ≡ take to xs
  take-append-slice from to xs h =
      take-append-take-drop from (to - from) xs ∙ take_cong xs (omega arith)

  pub length-slice :
      (from to : ℕ) (xs : List A) → to ≤ length xs → length (slice from to xs) ≡ to - from
  length-slice from to xs h =
      omega (arith, length-take (to - from) (drop from xs), length-drop from xs)

module _ {ℓ} {A : Type ℓ} where
  pub get_elem?_in_range :
      (xs : List A) (i : ℕ) → i < length xs → (x : A) × (get_elem? xs i ≡ some x)
  get_elem?_in_range [] i h = absurd (omega arith)
  get_elem?_in_range (x ∷ xs) zero h = (x, refl)
  get_elem?_in_range (x ∷ xs) (suc i) h = get_elem?_in_range xs i (omega arith)

  pub get_elem?-lt-length : (xs : List A) (i : ℕ) {x : A} → get_elem? xs i ≡ some x → i < length xs
  get_elem?-lt-length [] i h = cc
  get_elem?-lt-length (x ∷ xs) zero h = omega arith
  get_elem?-lt-length (x ∷ xs) (suc i) h = omega (arith, get_elem?-lt-length xs i h)

module _ {ℓ κ} {A : Type ℓ} {B : Type κ} where
  pub length-map : (xs : List A) (f : A → B) → length (map f xs) ≡ length xs
  length-map [] f = refl
  length-map (x ∷ xs) f = ap suc (length-map xs f)

  pub get_elem?-map :
      (f : A → B) (xs : List A) (i : ℕ) {x : A}
      → get_elem? xs i ≡ some x
      → get_elem? (map f xs) i ≡ some (f x)
  get_elem?-map f [] i h = cc
  get_elem?-map f (x ∷ xs) zero h = cc
  get_elem?-map f (x ∷ xs) (suc i) h = get_elem?-map f xs i h

  pub get_elem?-map_inverse :
      (f : A → B) (xs : List A) (i : ℕ) {y : B}
      → get_elem? (map f xs) i ≡ some y
      → (x : A) × (get_elem? xs i ≡ some x) × (y ≡ f x)
  get_elem?-map_inverse f [] i h = cc
  get_elem?-map_inverse f (x ∷ xs) zero h = (x, refl, cc)
  get_elem?-map_inverse f (x ∷ xs) (suc i) h = get_elem?-map_inverse f xs i h
