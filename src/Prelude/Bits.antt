-- ===== src/Prelude/Bits.antt =====
-- Masks and disjoint sums of bits as arithmetic.
use Prim.Native.Nat.{ℕ, zero, suc, ◌+◌, ◌*◌, ◌/◌, ◌%◌, ◌^◌, ◌≤◌, ◌<◌, min, max}
use Prim.Native.Nat.{bit_and, bit_or, digits, bit_and-bitwise, bit_or-bitwise}
use mathlib.Core.Path.{◌≡◌, refl, ap, sym, ◌∙◌}
use native.Mathlib.Omega.{arith}

-- The library's recursion on digits, for any operation on two digits.
module _ (last : ℕ → ℕ) (op : ℕ → ℕ → ℕ) where
  -- The count of digits to go plays no part where it is at least the first number.
  digits_enough : (x y : ℕ) (i j : ℕ) → x ≤ i → x ≤ j → digits last op i x y ≡ digits last op j x y
  digits_enough zero y zero zero _ _ = refl
  digits_enough zero y zero (suc j) _ _ = refl
  digits_enough zero y (suc i) zero _ _ = refl
  digits_enough zero y (suc i) (suc j) _ _ = refl
  digits_enough (suc x) y zero j hi _ = absurd (omega arith)
  digits_enough (suc x) y (suc i) zero _ hj = absurd (omega arith)
  digits_enough (suc x) y (suc i) (suc j) hi hj =
      let half = (suc x) / 2 in
      let later : digits last op i half (y / 2) ≡ digits last op j half (y / 2) =
        digits_enough half (y / 2) i j (omega arith) (omega arith) in
      ap (λ (t : ℕ). t * 2 + op (suc x % 2) (y % 2)) later

  -- One digit of the whole recursion.
  digits_split :
      (x y : ℕ)
      → digits last op (suc x) (suc x) y
        ≡ digits last op (suc x / 2) (suc x / 2) (y / 2) * 2 + op (suc x % 2) (y % 2)
  digits_split x y =
      ap (λ (t : ℕ). t * 2 + op (suc x % 2) (y % 2))
        (digits_enough (suc x / 2) (y / 2) x (suc x / 2) (omega arith) (omega arith))

bit_or_none : (y : ℕ) → bit_or 0 y ≡ y
bit_or_none y = bit_or-bitwise 0 y

bit_and_half : (x y : ℕ) → bit_and x y ≡ bit_and (x / 2) (y / 2) * 2 + min (x % 2) (y % 2)
bit_and_half zero y = omega (arith, bit_and-bitwise 0 y, bit_and-bitwise 0 (y / 2))
bit_and_half (suc x) y =
    bit_and-bitwise (suc x) y
    ∙ digits_split (λ _. zero) min x y
    ∙ ap (λ (t : ℕ). t * 2 + min (suc x % 2) (y % 2)) (sym (bit_and-bitwise (suc x / 2) (y / 2)))

bit_or_half : (x y : ℕ) → bit_or x y ≡ bit_or (x / 2) (y / 2) * 2 + max (x % 2) (y % 2)
bit_or_half zero y = omega (arith, bit_or_none y, bit_or_none (y / 2))
bit_or_half (suc x) y =
    bit_or-bitwise (suc x) y
    ∙ digits_split (λ y. y) max x y
    ∙ ap (λ (t : ℕ). t * 2 + max (suc x % 2) (y % 2)) (sym (bit_or-bitwise (suc x / 2) (y / 2)))

-- An empty mask, by the size of the number.
bit_and_none : (size x : ℕ) → x ≤ size → bit_and x 0 ≡ 0
bit_and_none size zero _ = refl
bit_and_none zero (suc x) small = absurd (omega arith)
bit_and_none (suc size) (suc x) small =
    let smaller = bit_and_none size (suc x / 2) (omega arith) in
    omega (arith, bit_and_half (suc x) 0, smaller)

-- A number of `k` ones, and the lowest `k` bits of a number.
abbrev pub ones : ℕ → ℕ
ones zero = 0
ones (suc k) = ones k * 2 + 1

abbrev pub low : ℕ → ℕ → ℕ
low zero a = 0
low (suc k) a = low k (a / 2) * 2 + a % 2

abbrev pub pow2 : ℕ → ℕ
pow2 zero = 1
pow2 (suc k) = pow2 k * 2

pub bit_and-ones : (k a : ℕ) → bit_and a (ones k) ≡ low k a
bit_and-ones zero a = bit_and_none a a (omega arith)
bit_and-ones (suc k) a =
    let half : (ones k * 2 + 1) / 2 ≡ ones k = omega arith in
    omega
      (arith, bit_and_half a (ones k * 2 + 1), ap (bit_and (a / 2)) half, bit_and-ones k (a / 2))

-- Bits that do not overlap add up.
pub bit_or-shifted : (k lo hi : ℕ) → lo < pow2 k → bit_or lo (hi * pow2 k) ≡ lo + hi * pow2 k
bit_or-shifted zero lo hi h =
    let nil : lo ≡ 0 = omega arith in
    omega (arith, ap (λ t. bit_or t (hi * 1)) nil, bit_or_none (hi * 1))
bit_or-shifted (suc k) lo hi h =
    let half : hi * (pow2 k * 2) / 2 ≡ hi * pow2 k = omega arith in
    let even : hi * (pow2 k * 2) % 2 ≡ 0 = omega arith in
    omega (
      arith,
      bit_or_half lo (hi * (pow2 k * 2)),
      ap (bit_or (lo / 2)) half,
      ap (max (lo % 2)) even,
      bit_or-shifted k (lo / 2) hi (omega arith),
    )

pub bit_and_u16 : (a : ℕ) → bit_and a 0xffff ≡ a % 2 ^ 16
bit_and_u16 a = omega (arith, bit_and-ones 16 a)

pub bit_or_u16 : (lo hi : ℕ) → lo < 2 ^ 16 → bit_or lo (hi * 2 ^ 16) ≡ lo + hi * 2 ^ 16
bit_or_u16 lo hi h = bit_or-shifted 16 lo hi h
