-- ===== src/Prelude/Bits.antt =====
-- Laws of `bit_or`, `bit_xor` and `bit_and` at variables: each works digit by digit.
use Prim.Native.Nat.{
  ℕ, zero, suc, ◌+◌, ◌*◌, ◌/◌, ◌%◌, ◌^◌, ◌≤◌, ◌<◌, max, min, bit_and, bit_or, bit_xor, digits,
  bitwise, differ, bit_and-bitwise, bit_or-bitwise, bit_xor-bitwise,
}
use mathlib.Core.Path.{◌≡◌, refl, sym, ap, ◌∙◌}
use native.Mathlib.Omega.{arith}
use native.Mathlib.Nat.{pow-suc}

-- `rest` is the operation's value where the first number has run out, `digit` what it does to a pair
-- of digits.
module _ (rest : ℕ → ℕ) (digit : ℕ → ℕ → ℕ) where
  digits-zero : (fuel b : ℕ) → digits rest digit fuel 0 b ≡ rest b
  digits-zero zero b = refl
  digits-zero (suc fuel) b = refl

  enough_fuel :
      (a b fuel more : ℕ)
      → a ≤ fuel
      → a ≤ more
      → digits rest digit fuel a b ≡ digits rest digit more a b
  enough_fuel zero b fuel more h k = digits-zero fuel b ∙ sym (digits-zero more b)
  enough_fuel (suc a) b (suc fuel) (suc more) h k =
      ap (λ high. high * 2 + digit (suc a % 2) (b % 2))
        (enough_fuel (suc a / 2) (b / 2) fuel more (omega (arith, h)) (omega (arith, k)))
  enough_fuel (suc a) b zero more h k = absurd (omega (arith, h))
  enough_fuel (suc a) b (suc fuel) zero h k = absurd (omega (arith, k))

  lowest_digit :
      (a b : ℕ)
      → rest b ≡ rest (b / 2) * 2 + digit 0 (b % 2)
      → bitwise rest digit a b ≡ bitwise rest digit (a / 2) (b / 2) * 2 + digit (a % 2) (b % 2)
  lowest_digit zero b h = h
  lowest_digit (suc a) b h =
      ap (λ high. high * 2 + digit (suc a % 2) (b % 2))
        (enough_fuel (suc a / 2) (b / 2) a (suc a / 2) (omega arith) (omega arith))

-- An operation that works digit by digit keeps numbers of `k` bits below 2 ^ k.
module _ (op digit : ℕ → ℕ → ℕ)
    (by_digit : (a b : ℕ) → op a b ≡ op (a / 2) (b / 2) * 2 + digit (a % 2) (b % 2))
    (small : (x y : ℕ) → x ≤ 1 → y ≤ 1 → digit x y ≤ 1) (empty : op 0 0 ≡ 0) where
  within : (k a b : ℕ) → a < 2 ^ k → b < 2 ^ k → op a b < 2 ^ k
  within zero zero zero h g = omega (arith, empty)
  within zero (suc a) b h g = absurd (omega (arith, h))
  within zero zero (suc b) h g = absurd (omega (arith, g))
  within (suc k) a b h g =
      let half : op (a / 2) (b / 2) < 2 ^ k =
        within k (a / 2) (b / 2) (omega (arith, h, pow-suc 2 k)) (omega (arith, g, pow-suc 2 k)) in
      let last : digit (a % 2) (b % 2) ≤ 1 = small (a % 2) (b % 2) (omega arith) (omega arith) in
      omega (arith, by_digit a b, half, last, pow-suc 2 k)

xor_by_digit : (a b : ℕ) → bit_xor a b ≡ bit_xor (a / 2) (b / 2) * 2 + differ (a % 2) (b % 2)
xor_by_digit a b = omega (
  arith,
  lowest_digit (λ b. b) differ a b (omega arith),
  bit_xor-bitwise a b,
  bit_xor-bitwise (a / 2) (b / 2),
)

or_by_digit : (a b : ℕ) → bit_or a b ≡ bit_or (a / 2) (b / 2) * 2 + max (a % 2) (b % 2)
or_by_digit a b = omega (
  arith,
  lowest_digit (λ b. b) max a b (omega arith),
  bit_or-bitwise a b,
  bit_or-bitwise (a / 2) (b / 2),
)

and_by_digit : (a b : ℕ) → bit_and a b ≡ bit_and (a / 2) (b / 2) * 2 + min (a % 2) (b % 2)
and_by_digit a b = omega (
  arith,
  lowest_digit (λ b. zero) min a b (omega arith),
  bit_and-bitwise a b,
  bit_and-bitwise (a / 2) (b / 2),
)

differ_small : (x y : ℕ) → x ≤ 1 → y ≤ 1 → differ x y ≤ 1
differ_small zero y h g = g
differ_small (suc x) zero h g = h
differ_small (suc x) (suc y) h g = differ_small x y (omega (arith, h)) (omega (arith, g))

differ-same : (y : ℕ) → differ y y ≡ 0
differ-same zero = refl
differ-same (suc y) = differ-same y

differ-differ : (x y : ℕ) → x ≤ 1 → y ≤ 1 → differ (differ x y) y ≡ x
differ-differ zero y h g = differ-same y
differ-differ (suc zero) zero h g = refl
differ-differ (suc zero) (suc zero) h g = refl
differ-differ (suc zero) (suc (suc y)) h g = absurd (omega (arith, g))
differ-differ (suc (suc x)) y h g = absurd (omega (arith, h))

-- Numbers of `k` bits are closed under `^`, `|` and `&`.
pub bit_xor-lt : (k a b : ℕ) → a < 2 ^ k → b < 2 ^ k → bit_xor a b < 2 ^ k
bit_xor-lt = within bit_xor differ xor_by_digit differ_small refl

pub bit_or-lt : (k a b : ℕ) → a < 2 ^ k → b < 2 ^ k → bit_or a b < 2 ^ k
bit_or-lt = within bit_or max or_by_digit (λ x y h g. omega (arith, h, g)) refl

-- `a & b` is at most `a`.
and_le : (k a b : ℕ) → a < 2 ^ k → bit_and a b ≤ a
and_le zero zero b h = omega (arith, bit_and-bitwise 0 b)
and_le zero (suc a) b h = absurd (omega (arith, h))
and_le (suc k) a b h =
    omega (arith, and_by_digit a b, and_le k (a / 2) (b / 2) (omega (arith, h, pow-suc 2 k)))

pub bit_and-lt : (k a b : ℕ) → a < 2 ^ k → bit_and a b < 2 ^ k
bit_and-lt k a b h = omega (arith, h, and_le k a b h)

xor_undone : (k a b : ℕ) → a < 2 ^ k → b < 2 ^ k → bit_xor (bit_xor a b) b ≡ a
xor_undone zero zero zero h g = refl
xor_undone zero (suc a) b h g = absurd (omega (arith, h))
xor_undone zero zero (suc b) h g = absurd (omega (arith, g))
xor_undone (suc k) a b h g =
    let step = xor_by_digit a b in
    let small : differ (a % 2) (b % 2) ≤ 1 =
      differ_small (a % 2) (b % 2) (omega arith) (omega arith) in
    let half : bit_xor a b / 2 ≡ bit_xor (a / 2) (b / 2) = omega (arith, step, small) in
    let last : bit_xor a b % 2 ≡ differ (a % 2) (b % 2) = omega (arith, step, small) in
    let high : bit_xor (bit_xor a b / 2) (b / 2) ≡ a / 2 =
      ap (λ t. bit_xor t (b / 2)) half
      ∙ xor_undone k (a / 2) (b / 2) (omega (arith, h, pow-suc 2 k))
          (omega (arith, g, pow-suc 2 k)) in
    let low : differ (bit_xor a b % 2) (b % 2) ≡ a % 2 =
      ap (λ t. differ t (b % 2)) last ∙ differ-differ (a % 2) (b % 2) (omega arith) (omega arith) in
    omega (arith, xor_by_digit (bit_xor a b) b, high, low)

-- A second `^` with the same byte gives the first one back.
pub bit_xor_twice : (a b : ℕ) → a < 2 ^ 8 → b < 2 ^ 8 → bit_xor (bit_xor a b) b ≡ a
bit_xor_twice = xor_undone 8
