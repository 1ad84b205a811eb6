-- ===== src/Delta/Find.antt =====
-- delta.rs, `Lookup`: what `find` returns, and that it misses no block.
use ripsync.Prelude.{
  ℕ, ◌<◌, ◌≡◌, ◌⊎◌, inl, inr, ap, sym, ◌∙◌, arith, Bool, none, some, true, false, List, [], ◌∷◌,
  length, get_elem?, list_eq, list_eq→eq, get_elem?_in_range, list_eq_self, Option-cases, ◌&&◌,
  ◌==◌, ==_self, if◌then◌else◌, All, Bool-cases,
}
use mathlib.Core.Path.{subst}
use mathlib.Core.Bool.{true≢false}
use ripsync.Checksum.{strong_hash}
use ripsync.Delta.{BlockSig, lookup_from, get_weak, find_in, find}

-- Block `i` of a signature has the window's length and strong hash.
abbrev pub Confirmed : (List ℕ → List ℕ) → List BlockSig → List ℕ → ℕ → Type 0
Confirmed blake3_hash blocks window i =
    (block : BlockSig) × (get_elem? blocks i ≡ some block)
    × (block.len ≡ length window)
    × (block.strong ≡ strong_hash blake3_hash window)

-- A list holds a number.
abbrev pub Has : ℕ → List ℕ → Type 0
Has i [] = ⊥
Has i (j ∷ js) = (i ≡ j) ⊎ Has i js

module _ (blake3_hash : List ℕ → List ℕ) (blocks : List BlockSig) (window : List ℕ) where
  -- The two tests of the loop.
  accepts : BlockSig → Bool
  accepts block =
      block.len == length window && list_eq block.strong (strong_hash blake3_hash window)

  accepts_sound :
      (block : BlockSig)
      → accepts block ≡ true
      → (block.len ≡ length window) × (block.strong ≡ strong_hash blake3_hash window)
  unfolding accepts
  accepts_sound block h =
      (ground arith, list_eq→eq block.strong (strong_hash blake3_hash window) (ground arith))

  accepts_complete :
      (block : BlockSig)
      → block.len ≡ length window
      → block.strong ≡ strong_hash blake3_hash window
      → accepts block ≡ true
  unfolding accepts
  accepts_complete block h e =
      rw (h, e, ==_self (length window)) (list_eq_self (strong_hash blake3_hash window))

  find_in_step :
      (j : ℕ) (candidates : List ℕ) {block : BlockSig}
      → get_elem? blocks j ≡ some block
      → find_in blake3_hash blocks window (j ∷ candidates)
        ≡ (if accepts block then some j else find_in blake3_hash blocks window candidates)
  unfolding find_in accepts
  find_in_step j candidates {block} e = rw (e, find_in) (ground arith)

  find_in_missing :
      (j : ℕ) (candidates : List ℕ)
      → get_elem? blocks j ≡ none
      → find_in blake3_hash blocks window (j ∷ candidates) ≡ none
  unfolding find_in
  find_in_missing j candidates e = rw (e, find_in)

  -- The first candidate is returned and confirmed, or the loop goes on as if it were not there.
  find_in_cases :
      (j : ℕ) (candidates : List ℕ) (block : BlockSig)
      → get_elem? blocks j ≡ some block
      → (find_in blake3_hash blocks window (j ∷ candidates) ≡ some j)
          × Confirmed blake3_hash blocks window j
        ⊎ (find_in blake3_hash blocks window (j ∷ candidates)
            ≡ find_in blake3_hash blocks window candidates)
          × (accepts block ≡ false)
  find_in_cases j candidates block e = elim (Bool-cases (accepts block)) [
    | inl t ↦
        let step : find_in blake3_hash blocks window (j ∷ candidates) ≡ some j =
          find_in_step j candidates e ∙ rw t in
        let (len, strong) = accepts_sound block t in inl (step, (block, e, len, strong))
    | inr f ↦ inr (find_in_step j candidates e ∙ rw f, f)
  ]

  find_in-Confirmed :
      (candidates : List ℕ) {bi : ℕ}
      → find_in blake3_hash blocks window candidates ≡ some bi
      → Confirmed blake3_hash blocks window bi
  find_in-Confirmed [] h = unfold find_in in cc
  find_in-Confirmed (j ∷ candidates) {bi} h = elim (Option-cases (get_elem? blocks j)) [
    | inl e ↦ cc (h, find_in_missing j candidates e)
    | inr (block, e) ↦ elim (find_in_cases j candidates block e) [
      | inl (hit, c) ↦
          let same : j ≡ bi = cc (hit, h) in subst (Confirmed blake3_hash blocks window) same c
      | inr (miss, _) ↦ find_in-Confirmed candidates (sym miss ∙ h)
    ]
  ]

  -- A block that `find` returns is confirmed by length and strong hash.
  pub find-Confirmed :
      (weak : ℕ) {bi : ℕ}
      → find blake3_hash blocks weak window ≡ some bi
      → Confirmed blake3_hash blocks window bi
  find-Confirmed weak {bi} h = elim (Option-cases (get_weak weak (lookup_from 0 blocks []))) [
    | inl e ↦
        let none_found : find blake3_hash blocks weak window ≡ none = unfold find in rw (e, find) in
        cc (h, none_found)
    | inr (candidates, e) ↦
        let step : find blake3_hash blocks weak window
            ≡ find_in blake3_hash blocks window candidates =
          unfold find in rw (e, find) in
        find_in-Confirmed candidates (sym step ∙ h)
  ]

  -- With a confirmed block among candidates that are all in range, the loop returns some block.
  pub find_in_total :
      (candidates : List ℕ) (i : ℕ)
      → All (λ j. j < length blocks) candidates
      → Has i candidates
      → Confirmed blake3_hash blocks window i
      → (bi : ℕ) × (find_in blake3_hash blocks window candidates ≡ some bi)
  find_in_total [] i range h c = absurd h
  find_in_total (j ∷ candidates) i range h (block', e', len, strong) =
      let (block, e) = get_elem?_in_range blocks j range.0 in
      elim (find_in_cases j candidates block e) [
        | inl (hit, _) ↦ (j, hit)
        | inr (miss, rejected) ↦ elim h [
          | inl same ↦
              let accepted = accepts_complete block' len strong in
              let one : block ≡ block' = cc (e, e', same) in
              absurd (true≢false (sym accepted ∙ ap accepts (sym one) ∙ rejected))
          | inr later ↦
              let (bi, found) =
                find_in_total candidates i range.1 later (block', e', len, strong) in
              (bi, miss ∙ found)
        ]
      ]
