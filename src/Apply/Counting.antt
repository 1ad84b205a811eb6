-- ===== src/Apply/Counting.antt =====
-- Parts of a run that always go on, and how many entries they count.
use ripsync.Prelude.{ℕ, suc, ◌+◌, ◌≡◌, refl, ap, ◌∙◌, arith, List, [], ◌∷◌, length, ok, err, ◌>>=◌}
use ripsync.Errors.{Outcome}
use ripsync.Entries.{Action, copy, update, skip}
use ripsync.Report.{Stats}
use ripsync.Apply.{bump_action}
use ripsync.Apply.Phases.{Run, settled}

-- Everything that a run has counted but bytes.
abbrev pub counted : Stats → ℕ
counted stats = stats.copied + stats.updated + stats.skipped + stats.deleted + stats.errors

pub counted-bump_action :
    (action : Action) (stats : Stats) → counted (bump_action action stats) ≡ counted stats + 1
counted-bump_action copy stats = omega arith
counted-bump_action update stats = omega arith
counted-bump_action skip stats = omega arith

module _ {S : Type 0} where
  -- A part of a run that always goes on, and counts `n`.
  pub record Counts (part : Run S → Outcome (Run S)) (n : ℕ) : Type 0 where
    pub goes :
        (r : Run S)
        → (after : Run S) × (part r ≡ ok after) × (counted after.stats ≡ counted r.stats + n)

  pub both :
      {f g : Run S → Outcome (Run S)} (m n k : ℕ)
      → m + n ≡ k
      → Counts f m
      → Counts g n
      → Counts (λ r. f r >>= g) k
  both {f = f} {g = g} m n k sum cf cg = record {
    goes = λ r.
        let (a, fa, ca) = cf.goes r in
        let (b, gb, cb) = cg.goes a in
        (b, ap (λ (o : Outcome (Run S)). o >>= g) fa ∙ gb, omega (arith, ca, cb, sum));
  }

  -- A part that counts nothing, one entry, and the others.
  pub then_step :
      {first rest : Run S → Outcome (Run S)} (n : ℕ) (step : Run S → Run S)
      → Counts first 0
      → ((r : Run S) → counted (step r).stats ≡ counted r.stats + 1)
      → Counts rest n
      → Counts (λ r. first r >>= λ r. rest (step r)) (suc n)
  then_step {first = first} {rest = rest} n step cf cs cr = record {
    goes = λ r.
        let (a, fa, ca) = cf.goes r in
        let (b, rb, cb) = cr.goes (step a) in
        let one = cs a in
        (
          b,
          ap (λ (o : Outcome (Run S)). o >>= λ r. rest (step r)) fa ∙ rb,
          omega (arith, ca, cb, one),
        );
  }

  pub nothing : Counts ok 0
  nothing = record { goes = λ r. (r, refl, omega arith) }

  pub counted-settled :
      {A : Type 0} (count : A → Stats → Stats)
      → ((a : A) (stats : Stats) → counted (count a stats) ≡ counted stats + 1)
      → (r : Run S) (out : Outcome A × S)
      → counted (settled count r out).stats ≡ counted r.stats + 1
  counted-settled count c r (ok a, s) = c a r.stats
  counted-settled count c r (err e, s) = omega arith

-- `n` for each element.
abbrev pub total : {X : Type 0} → ℕ → List X → ℕ
total n [] = 0
total n (x ∷ xs) = n + total n xs

pub total_one : {X : Type 0} (xs : List X) → total 1 xs ≡ length xs
total_one [] = refl
total_one (x ∷ xs) = omega (arith, total_one xs)

pub total_none : {X : Type 0} (xs : List X) → total 0 xs ≡ 0
total_none [] = refl
total_none (x ∷ xs) = omega (arith, total_none xs)
