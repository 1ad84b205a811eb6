-- ===== src/Prelude/Results.antt =====
-- Rust's `Result`, over any type of errors, with `?` as `>>=`.
use mathlib.Core.Path.{◌≡◌, refl}
use mathlib.Core.Logic.{◌⊎◌, inl, inr}

pub data Result {ℓ κ} (E : Type ℓ) (A : Type κ) : Type (ℓ ⊔ κ) where
  ok : (value : A) → Result E A
  err : (error : E) → Result E A

infixl 5 ◌>>=◌ ◌>>◌
-- `?`, and what follows it.
abbrev pub ◌>>=◌ {ℓ κ μ} :
    {E : Type ℓ} {A : Type κ} {B : Type μ} (outcome : Result E A) → (A → Result E B) → Result E B
err error >>= next = err error
ok value >>= next = next value

-- The same where the value is of no use.
abbrev pub ◌>>◌ {ℓ κ} :
    {E : Type ℓ} {B : Type κ} (outcome : Result E (Unit {0})) → Result E B → Result E B
outcome >> next = outcome >>= λ _. next

pub Result-cases {ℓ κ} :
    {E : Type ℓ} {A : Type κ} (r : Result E A) → ((a : A) × (r ≡ ok a)) ⊎ ((e : E) × (r ≡ err e))
Result-cases (ok a) = inl (a, refl)
Result-cases (err e) = inr (e, refl)

-- A `?` that went through had a value to go on with.
pub >>=-eq-ok {ℓ κ μ} :
    {E : Type ℓ} {A : Type κ} {B : Type μ} (outcome : Result E A) (next : A → Result E B)
    {result : B}
    → (outcome >>= next) ≡ ok result
    → (value : A) × (outcome ≡ ok value) × (next value ≡ ok result)
>>=-eq-ok (err error) next went = cc
>>=-eq-ok (ok value) next went = (value, refl, went)

pub ok-injective {ℓ κ} :
    {E : Type ℓ} {A : Type κ} {a b : A} → ◌≡◌ {A = Result E A} (ok a) (ok b) → a ≡ b
ok-injective h = cc
