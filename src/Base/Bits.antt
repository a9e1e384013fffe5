-- ===== src/Base/Bits.antt =====
-- The bits of a number, and what `|` and `&` do to them.
use Prim.Native.Nat.{
  ℕ, zero, suc, ◌+◌, ◌*◌, ◌/◌, ◌%◌, ◌^◌, ◌≤◌, ◌<◌, max, min, bit_or, bit_and, digits, bitwise,
  bit_or-bitwise, bit_and-bitwise,
}
use mathlib.Core.Path.{◌≡◌, refl, sym, ap, ◌∙◌}
use native.Mathlib.Omega.{arith}
use native.Mathlib.Nat.{pow-succ', div-div-eq-div-mul}

-- bit `i` of `a`
unfoldable pub bit : ℕ → ℕ → ℕ
bit a zero = a % 2
bit a (suc i) = bit (a / 2) i

-- The count of digits to go does not matter when it is at least the first number.
module _ (none_left : ℕ → ℕ) (op : ℕ → ℕ → ℕ) where
  digits_of_none : (n b : ℕ) → digits none_left op n 0 b ≡ none_left b
  digits_of_none zero b = refl
  digits_of_none (suc n) b = refl

  digits_fuel :
      (a b n m : ℕ) → a ≤ n → a ≤ m → digits none_left op n a b ≡ digits none_left op m a b
  digits_fuel zero b n m le le' = digits_of_none n b ∙ sym (digits_of_none m b)
  digits_fuel (suc a) b zero m le le' = absurd (omega arith)
  digits_fuel (suc a) b (suc n) zero le le' = absurd (omega arith)
  digits_fuel (suc a) b (suc n) (suc m) le le' =
      ap (λ d. d * 2 + op (suc a % 2) (b % 2))
        (digits_fuel (suc a / 2) (b / 2) n m (omega arith) (omega arith))

-- The lowest digit, and the rest.
bitwise-suc :
    (none_left : ℕ → ℕ) (op : ℕ → ℕ → ℕ) (a b : ℕ)
    → bitwise none_left op (suc a) b
      ≡ bitwise none_left op (suc a / 2) (b / 2) * 2 + op (suc a % 2) (b % 2)
bitwise-suc none_left op a b =
    ap (λ d. d * 2 + op (suc a % 2) (b % 2))
      (digits_fuel none_left op (suc a / 2) (b / 2) a (suc a / 2) (omega arith) (omega arith))

bit_or_step : (a b : ℕ) → bit_or a b ≡ bit_or (a / 2) (b / 2) * 2 + max (a % 2) (b % 2)
bit_or_step zero b = omega (arith, bit_or-bitwise 0 b, bit_or-bitwise 0 (b / 2))
bit_or_step (suc a) b =
    let here : bit_or (suc a) b ≡ bitwise (λ d. d) max (suc a) b = bit_or-bitwise (suc a) b in
    let rest : bit_or (suc a / 2) (b / 2) ≡ bitwise (λ d. d) max (suc a / 2) (b / 2) =
      bit_or-bitwise (suc a / 2) (b / 2) in
    omega (arith, here, rest, bitwise-suc (λ d. d) max a b)

and_le_fuel : (n a b : ℕ) → a ≤ n → bit_and a b ≤ b
and_le_fuel n zero b le = omega (arith, bit_and-bitwise 0 b)
and_le_fuel zero (suc a) b le = absurd (omega arith)
and_le_fuel (suc n) (suc a) b le = omega (
  arith,
  and_le_fuel n (suc a / 2) (b / 2) (omega arith),
  bitwise-suc (λ d. 0) min a b,
  bit_and-bitwise (suc a / 2) (b / 2),
  bit_and-bitwise (suc a) b,
)

-- `a & b` is at most `b`
pub bit_and_le : (a b : ℕ) → bit_and a b ≤ b
bit_and_le a b = and_le_fuel a a b (omega arith)

pub bit-bit_or : (a b i : ℕ) → bit (bit_or a b) i ≡ max (bit a i) (bit b i)
unfolding bit
bit-bit_or a b zero = omega (arith, bit_or_step a b)
bit-bit_or a b (suc i) =
    let half : bit_or a b / 2 ≡ bit_or (a / 2) (b / 2) = omega (arith, bit_or_step a b) in
    rw half (bit-bit_or (a / 2) (b / 2) i)

-- `|` of two numbers of `k` bits has `k` bits
pub bit_or_lt : (k a b : ℕ) → a < 2 ^ k → b < 2 ^ k → bit_or a b < 2 ^ k
bit_or_lt zero a b lt lt' =
    let none_a : a ≡ 0 = omega arith in
    let none_b : b ≡ 0 = omega arith in rw (none_a, none_b) (omega arith)
bit_or_lt (suc k) a b lt lt' =
    omega (arith, bit_or_step a b, bit_or_lt k (a / 2) (b / 2) (omega arith) (omega arith))

-- the bits of `a >> s`
pub bit-shift : (s a i : ℕ) → bit (a / 2 ^ s) i ≡ bit a (s + i)
unfolding bit
bit-shift zero a i =
    let same : a / 1 ≡ a = omega arith in let at : 0 + i ≡ i = omega arith in rw (same, at) refl
bit-shift (suc s) a i =
    let at : suc s + i ≡ suc (s + i) = omega arith in
    let twice : a / 2 ^ suc s ≡ a / 2 / 2 ^ s =
      ap (λ d. a / d) (pow-succ' 2 s) ∙ sym (div-div-eq-div-mul a 2 (2 ^ s)) in
    rw (twice, at) (bit-shift s (a / 2) i)

-- a number of `k` bits that are all 1
pub all_ones : (k a : ℕ) → a < 2 ^ k → ((i : ℕ) → i < k → bit a i ≡ 1) → a + 1 ≡ 2 ^ k
unfolding bit
all_ones zero a lt ones = omega arith
all_ones (suc k) a lt ones = omega (
  arith,
  ones 0 (omega arith),
  all_ones k (a / 2) (omega arith) (λ i lt. ones (suc i) (omega arith)),
)

-- the first bit of a number of `k` + 1 bits
pub first_bit : (k a : ℕ) → 2 ^ k ≤ a → a < 2 ^ suc k → bit a k ≡ 1
unfolding bit
first_bit zero a le lt = omega arith
first_bit (suc k) a le lt = first_bit k (a / 2) (omega arith) (omega arith)

pub bit_small : (a i : ℕ) → bit a i ≤ 1
unfolding bit
bit_small a zero = omega arith
bit_small a (suc i) = bit_small (a / 2) i
