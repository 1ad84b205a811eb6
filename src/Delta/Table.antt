-- ===== src/Delta/Table.antt =====
-- delta.rs, `Lookup::new`: the table from weak checksums to block indices misses no block.
use ripsync.Prelude.{
  ℕ, zero, suc, ◌+◌, ◌≤◌, ◌<◌, ◌≡◌, inl, inr, refl, ap, sym, ◌∙◌, arith, true, Option, none, some,
  List, [], ◌∷◌, ◌++◌, length, get_elem?, ◌==◌, ==_iff, if◌then◌else◌, All, Bool-cases,
  Option-cases,
}
use mathlib.Core.Path.{subst}
use ripsync.Prelude.Words.{u32_mod, u32_max, u32_or}
use ripsync.Delta.{BlockSig, push_entry, lookup_from, get_weak, find_in, find}
use ripsync.Delta.Find.{Confirmed, Has, find_in_total}

-- The indices that the table holds for a weak checksum.
abbrev found_or_nil : Option (List ℕ) → List ℕ
found_or_nil none = []
found_or_nil (some found) = found

abbrev entries : ℕ → List (ℕ × List ℕ) → List ℕ
entries weak by_weak = found_or_nil (get_weak weak by_weak)

entries-push_entry :
    (weak w i : ℕ) (by_weak : List (ℕ × List ℕ))
    → entries weak (push_entry w i by_weak)
      ≡ (if w == weak then entries weak by_weak ++ (i ∷ []) else entries weak by_weak)
unfolding push_entry get_weak
entries-push_entry weak w i [] = ground arith
entries-push_entry weak w i ((v, found) ∷ rest) = ground (arith, entries-push_entry weak w i rest)

Has-append_left : (i : ℕ) (xs ys : List ℕ) → Has i xs → Has i (xs ++ ys)
Has-append_left i [] ys h = absurd h
Has-append_left i (x ∷ xs) ys (inl e) = inl e
Has-append_left i (x ∷ xs) ys (inr h) = inr (Has-append_left i xs ys h)

Has-last : (i : ℕ) (xs : List ℕ) → Has i (xs ++ (i ∷ []))
Has-last i [] = inl refl
Has-last i (x ∷ xs) = inr (Has-last i xs)

All-snoc :
    {n : ℕ} (xs : List ℕ) (i : ℕ) → All (λ j. j < n) xs → i < n → All (λ j. j < n) (xs ++ (i ∷ []))
All-snoc [] i h hi = (hi, tt)
All-snoc (x ∷ xs) i h hi = (h.0, All-snoc xs i h.1 hi)

module _ (weak : ℕ) where
  -- What a push keeps: the indices that were there, and the range of all.
  Has-push_entry :
      (i w k : ℕ) (by_weak : List (ℕ × List ℕ))
      → Has i (entries weak by_weak)
      → Has i (entries weak (push_entry w k by_weak))
  Has-push_entry i w k by_weak h = elim (Bool-cases (w == weak)) [
    | inl t ↦
        subst (Has i) (sym (entries-push_entry weak w k by_weak ∙ rw t))
          (Has-append_left i (entries weak by_weak) (k ∷ []) h)
    | inr f ↦ subst (Has i) (sym (entries-push_entry weak w k by_weak ∙ rw f)) h
  ]

  All-push_entry :
      (n w k : ℕ) (by_weak : List (ℕ × List ℕ))
      → k < n
      → All (λ j. j < n) (entries weak by_weak)
      → All (λ j. j < n) (entries weak (push_entry w k by_weak))
  All-push_entry n w k by_weak hk h = elim (Bool-cases (w == weak)) [
    | inl t ↦
        subst (All (λ j. j < n)) (sym (entries-push_entry weak w k by_weak ∙ rw t))
          (All-snoc (entries weak by_weak) k h hk)
    | inr f ↦ subst (All (λ j. j < n)) (sym (entries-push_entry weak w k by_weak ∙ rw f)) h
  ]

  Has-lookup_from_old :
      (i k : ℕ) (blocks : List BlockSig) (by_weak : List (ℕ × List ℕ))
      → Has i (entries weak by_weak)
      → Has i (entries weak (lookup_from k blocks by_weak))
  unfolding lookup_from
  Has-lookup_from_old i k [] by_weak h = h
  Has-lookup_from_old i k (block ∷ blocks) by_weak h =
      Has-lookup_from_old i (k + 1) blocks (push_entry block.weak (u32_or u32_max k) by_weak)
        (Has-push_entry i block.weak (u32_or u32_max k) by_weak h)

  u32_or_small : (k : ℕ) → k < u32_mod → u32_or u32_max k ≡ k
  u32_or_small k h = ground arith

  Has-lookup_from :
      (k j : ℕ) (blocks : List BlockSig) (by_weak : List (ℕ × List ℕ)) {block : BlockSig}
      → k + length blocks ≤ u32_mod
      → get_elem? blocks j ≡ some block
      → block.weak ≡ weak
      → Has (k + j) (entries weak (lookup_from k blocks by_weak))
  unfolding lookup_from
  Has-lookup_from k j [] by_weak hk e hw = absurd (cc)
  Has-lookup_from k zero (b ∷ blocks) by_weak {block} hk e hw =
      let same : b ≡ block = cc in
      let hit : (b.weak == weak) ≡ true =
        (==_iff b.weak weak).1 (ap (λ (x : BlockSig). x.weak) same ∙ hw) in
      let small : u32_or u32_max k ≡ k = u32_or_small k (omega arith) in
      let here : k + 0 ≡ u32_or u32_max k = omega arith in
      Has-lookup_from_old (k + 0) (k + 1) blocks (push_entry b.weak (u32_or u32_max k) by_weak) (
        subst (Has (k + 0))
          (sym (entries-push_entry weak b.weak (u32_or u32_max k) by_weak ∙ rw hit))
          (subst (λ t. Has t (entries weak by_weak ++ (u32_or u32_max k ∷ []))) (sym here)
            (Has-last (u32_or u32_max k) (entries weak by_weak))))
  Has-lookup_from k (suc j) (b ∷ blocks) by_weak hk e hw =
      let shift : k + 1 + j ≡ k + suc j = omega arith in
      subst
        (λ t. Has t (
          entries weak (lookup_from (k + 1) blocks (push_entry b.weak (u32_or u32_max k) by_weak))))
        shift
        (Has-lookup_from (k + 1) j blocks (push_entry b.weak (u32_or u32_max k) by_weak)
          (omega arith) e hw)

  All-lookup_from :
      (n k : ℕ) (blocks : List BlockSig) (by_weak : List (ℕ × List ℕ))
      → k + length blocks ≤ n
      → n ≤ u32_mod
      → All (λ j. j < n) (entries weak by_weak)
      → All (λ j. j < n) (entries weak (lookup_from k blocks by_weak))
  unfolding lookup_from
  All-lookup_from n k [] by_weak hk hn h = h
  All-lookup_from n k (b ∷ blocks) by_weak hk hn h =
      let small : u32_or u32_max k < n = ground arith in
      All-lookup_from n (k + 1) blocks (push_entry b.weak (u32_or u32_max k) by_weak) (omega arith)
        hn (All-push_entry n b.weak (u32_or u32_max k) by_weak small h)

-- `find` misses no block: where a block has the window's weak checksum, length and strong hash,
-- some block is found.
module _ (blake3_hash : List ℕ → List ℕ) (blocks : List BlockSig) (window : List ℕ) where
  pub find_total :
      (weak i : ℕ) {block : BlockSig}
      → length blocks ≤ u32_mod
      → get_elem? blocks i ≡ some block
      → block.weak ≡ weak
      → Confirmed blake3_hash blocks window i
      → (bi : ℕ) × (find blake3_hash blocks weak window ≡ some bi)
  find_total weak i len e hw c =
      let table = lookup_from 0 blocks [] in
      let here : Has i (entries weak table) =
        subst (λ t. Has t (entries weak table)) {x = 0 + i} (omega arith)
          (Has-lookup_from weak 0 i blocks [] (omega arith) e hw) in
      let range : All (λ j. j < length blocks) (entries weak table) =
        All-lookup_from weak (length blocks) 0 blocks [] (omega arith) len nothing in
      elim (Option-cases (get_weak weak table)) [
        | inl none_found ↦ absurd (subst (λ o. Has i (found_or_nil o)) none_found here)
        | inr (candidates, some_found) ↦
            let (bi, hit) =
              find_in_total blake3_hash blocks window candidates i
                (subst (λ o. All (λ j. j < length blocks) (found_or_nil o)) some_found range)
                (subst (λ o. Has i (found_or_nil o)) some_found here) c in
            let step : find blake3_hash blocks weak window
                ≡ find_in blake3_hash blocks window candidates =
              unfold find in rw (some_found, find) in
            (bi, step ∙ hit)
      ]
    where
      nothing : All (λ j. j < length blocks) (entries weak [])
      nothing = unfold get_weak in tt
