-- ===== src/Apply/Backends.antt =====
-- apply.rs: the choice of the backend, as Linux has it. The texts that name it are left out.
use ripsync.Prelude.{
  ℕ, zero, suc, ◌+◌, ◌*◌, ◌/◌, ◌≡◌, ◌≤◌, refl, ap, ◌∙◌, arith, Bool, false, not, ◌&&◌, Option, none,
  some, Bool-cases, inl, inr, ltb→lt, ltb_false→le, List, [], ◌∷◌, length, get_elem?, ltb, leb,
  if◌then◌else◌,
}
use ripsync.Entries.{Entry, Action}
use ripsync.Apply.{Backend, ApplyOptions}

abbrev pub auto_uring_min_files : ℕ
auto_uring_min_files = 4096

abbrev pub auto_uring_median_max : ℕ
auto_uring_median_max = 64 * 1024

unfoldable pub insert_size : ℕ → List ℕ → List ℕ
insert_size x [] = x ∷ []
insert_size x (y ∷ ys) = let rest = insert_size x ys in if ltb y x then y ∷ rest else x ∷ y ∷ ys

-- The sizes in order; `select_nth_unstable` puts at `mid` what stands there in order.
unfoldable pub sort_sizes : List ℕ → List ℕ
unfolding insert_size
sort_sizes [] = []
sort_sizes (x ∷ xs) = insert_size x (sort_sizes xs)

abbrev pub sizes_of : List (Entry × Action) → List ℕ
sizes_of [] = []
sizes_of ((entry, action) ∷ files) = entry.len ∷ sizes_of files

abbrev pub is_small : Option ℕ → Bool
is_small none = false
is_small (some size) = ltb size auto_uring_median_max

unfoldable pub many_small_files : List (Entry × Action) → Bool
unfolding sort_sizes
many_small_files files =
    if ltb (length files) auto_uring_min_files
    then false
    else is_small (get_elem? (sort_sizes (sizes_of files)) (length (sizes_of files) / 2))

abbrev pub resolve_auto_backend : ApplyOptions → List (Entry × Action) → Backend
resolve_auto_backend opts files =
    if not opts.metadata.sparse && many_small_files files then Backend.uring else Backend.portable

abbrev pub resolve_for : ApplyOptions → List (Entry × Action) → Backend → Backend
resolve_for opts files Backend.portable = Backend.portable
resolve_for opts files Backend.uring =
    if opts.metadata.sparse then Backend.portable else Backend.uring
resolve_for opts files Backend.auto = resolve_auto_backend opts files

unfoldable pub resolve_backend : ApplyOptions → List (Entry × Action) → Backend
unfolding many_small_files
resolve_backend opts files = resolve_for opts files opts.backend

-- How many sizes are below the limit.
abbrev pub below : ℕ → List ℕ → ℕ
below limit [] = 0
below limit (x ∷ xs) = if ltb x limit then below limit xs + 1 else below limit xs

abbrev pub AtLeast : ℕ → List ℕ → Type 0
AtLeast x [] = Unit {0}
AtLeast x (y ∷ ys) = (x ≤ y) × AtLeast x ys

abbrev pub Ascending : List ℕ → Type 0
Ascending [] = Unit {0}
Ascending (x ∷ xs) = AtLeast x xs × Ascending xs

weaken-AtLeast : (x y : ℕ) (ys : List ℕ) → x ≤ y → AtLeast y ys → AtLeast x ys
weaken-AtLeast x y [] h a = tt
weaken-AtLeast x y (z ∷ zs) h a = (omega (arith, a.0), weaken-AtLeast x y zs h a.1)

AtLeast-insert_size : (x y : ℕ) (ys : List ℕ) → x ≤ y → AtLeast x ys → AtLeast x (insert_size y ys)
unfolding insert_size
AtLeast-insert_size x y [] h a = (h, tt)
AtLeast-insert_size x y (z ∷ zs) h a = elim (Bool-cases (ltb z y)) [
  | inl t ↦ rw t (a.0, AtLeast-insert_size x y zs h a.1)
  | inr f ↦ rw f (h, a)
]

insert_size-Ascending : (x : ℕ) (ys : List ℕ) → Ascending ys → Ascending (insert_size x ys)
unfolding insert_size
insert_size-Ascending x [] a = (tt, tt)
insert_size-Ascending x (y ∷ ys) a = elim (Bool-cases (ltb y x)) [
  | inl t ↦
      rw t (
        AtLeast-insert_size y x ys (omega (arith, ltb→lt y x t)) a.0,
        insert_size-Ascending x ys a.1,
      )
  | inr f ↦ let x_le_y = ltb_false→le y x f in rw f ((x_le_y, weaken-AtLeast x y ys x_le_y a.0), a)
]

sort_sizes-Ascending : (xs : List ℕ) → Ascending (sort_sizes xs)
unfolding sort_sizes
sort_sizes-Ascending [] = tt
sort_sizes-Ascending (x ∷ xs) = insert_size-Ascending x (sort_sizes xs) (sort_sizes-Ascending xs)

module _ (limit : ℕ) where
  below-insert_size : (x : ℕ) (ys : List ℕ) → below limit (insert_size x ys) ≡ below limit (x ∷ ys)
  unfolding insert_size
  below-insert_size x [] = refl
  below-insert_size x (y ∷ ys) = ground (arith, below-insert_size x ys)

  below-sort_sizes : (xs : List ℕ) → below limit (sort_sizes xs) ≡ below limit xs
  unfolding sort_sizes
  below-sort_sizes [] = refl
  below-sort_sizes (x ∷ xs) =
      below-insert_size x (sort_sizes xs) ∙ ground (arith, below-sort_sizes xs)

  below_none : (x : ℕ) (xs : List ℕ) → limit ≤ x → AtLeast x xs → below limit xs ≡ 0
  below_none x [] h a = refl
  below_none x (y ∷ ys) h a =
      let lower = below_none x ys h a.1 in let le = a.0 in ground (arith, lower, le, h)

  abbrev is_below : Option ℕ → Bool
  is_below none = false
  is_below (some size) = ltb size limit

  get_elem?-below :
      (xs : List ℕ) (i : ℕ) → Ascending xs → is_below (get_elem? xs i) ≡ ltb i (below limit xs)
  get_elem?-below [] i a = ground arith
  get_elem?-below (x ∷ xs) zero a = elim (Bool-cases (ltb x limit)) [
    | inl t ↦ ground (arith, t)
    | inr f ↦ ground (arith, f, below_none x xs (ltb_false→le x limit f) a.0)
  ]
  get_elem?-below (x ∷ xs) (suc i) a = elim (Bool-cases (ltb x limit)) [
    | inl t ↦ ground (arith, t, get_elem?-below xs i a.1)
    | inr f ↦
        ground (arith, f, get_elem?-below xs i a.1, below_none x xs (ltb_false→le x limit f) a.0)
  ]

length-sizes_of : (files : List (Entry × Action)) → length (sizes_of files) ≡ length files
length-sizes_of [] = refl
length-sizes_of ((entry, action) ∷ files) = ground (arith, length-sizes_of files)

-- The files count as many and small exactly where there are 4096 of them at least and more than
-- half of them, rounded down, are below 64 KiB.
pub many_small_files-below :
    (files : List (Entry × Action))
    → many_small_files files
      ≡ leb auto_uring_min_files (length files)
        && ltb (length files / 2) (below auto_uring_median_max (sizes_of files))
unfolding many_small_files
many_small_files-below files =
    let sizes = sizes_of files in
    let found : is_small (get_elem? (sort_sizes sizes) (length sizes / 2))
        ≡ ltb (length files / 2) (below auto_uring_median_max sizes) =
      get_elem?-below auto_uring_median_max (sort_sizes sizes) (length sizes / 2)
        (sort_sizes-Ascending sizes)
      ∙ ap (λ n. ltb (length sizes / 2) n) (below-sort_sizes auto_uring_median_max sizes)
      ∙ ap (λ n. ltb (n / 2) (below auto_uring_median_max sizes)) (length-sizes_of files) in
    ap (λ b. if ltb (length files) auto_uring_min_files then false else b) found ∙ ground arith
