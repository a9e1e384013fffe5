-- ===== src/Helpers/Powers.antt =====
-- `pow2roundup` of src/ssmp.c.
use Prim.Native.Nat.{bit_or}
use native.Mathlib.Nat.{pow-le-pow_right, div-le_self, mod-eq_of_lt}
use ssmp.Base.{
  ℕ, zero, suc, ◌+◌, ◌-◌, ◌/◌, ◌%◌, ◌^◌, ◌≤◌, ◌<◌, ◌≡◌, ◌⊎◌, inl, inr, refl, arith, false,
  if◌then◌else◌, ◌==◌, dec_lt, dec_le, ap, ◌∙◌,
}
use ssmp.Base.Bits.{bit, bit-bit_or, bit_or_lt, bit-shift, all_ones, first_bit, bit_small}

-- `x |= x >> 1; x |= x >> 2; x |= x >> 4; x |= x >> 8; x |= x >> 16`
abbrev smear_by : ℕ → ℕ → ℕ
smear_by s x = bit_or x (x / 2 ^ s)

unfoldable pub smear : ℕ → ℕ
smear x = smear_by 16 (smear_by 8 (smear_by 4 (smear_by 2 (smear_by 1 x))))

-- `pow2roundup`, on 32-bit numbers
unfoldable pub pow2roundup : ℕ → ℕ
unfolding smear
pow2roundup x = if x == 0 then 1 else (smear (x - 1) + 1) % 2 ^ 32

-- The first `w` of `k` bits are 1.
Leading : ℕ → ℕ → ℕ → Type 0
Leading k w x = (i : ℕ) → i < k → k ≤ i + w → bit x i ≡ 1

smear_by-Leading : (k w x : ℕ) → Leading k w x → Leading k (w + w) (smear_by w x)
unfolding Leading
smear_by-Leading k w x ones i lt le = elim (dec_le k (i + w)) [
  | yes near ↦ omega (arith, ones i lt near, bit-bit_or x (x / 2 ^ w) i, bit_small (x / 2 ^ w) i)
  | no far ↦ omega (
    arith,
    ones (w + i) (omega arith) (omega arith),
    bit-shift w x i,
    bit-bit_or x (x / 2 ^ w) i,
    bit_small x i,
  )
]

smear_by_lt : (k s x : ℕ) → x < 2 ^ k → smear_by s x < 2 ^ k
smear_by_lt k s x lt = bit_or_lt k x (x / 2 ^ s) lt (omega (arith, div-le_self x (2 ^ s)))

-- the number of bits of a number
bit_length :
    (k m : ℕ)
    → m < 2 ^ k
    → (l : ℕ) × (l ≤ k) × (m < 2 ^ l) × Leading l 1 m × ((j : ℕ) → m < 2 ^ j → l ≤ j)
unfolding Leading
bit_length zero m lt = (0, omega arith, lt, λ i below. absurd (omega arith), λ j h. omega arith)
bit_length (suc k) m lt = elim (dec_lt m (2 ^ k)) [
  | yes less ↦
      let (l, le, small, first, least) = bit_length k m less in
      (l, omega arith, small, first, least)
  | no more ↦ (
    suc k,
    omega arith,
    lt,
    λ i below le. (let last : i ≡ k = omega arith in rw last (first_bit k m (omega arith) lt)),
    λ j h. elim (dec_le j k) [
      | yes le ↦ absurd (omega (arith, pow-le-pow_right {n = 2} (omega arith) le))
      | no gt ↦ omega arith
    ],
  )
]

smear_lt : (k x : ℕ) → x < 2 ^ k → smear x < 2 ^ k
unfolding smear
smear_lt k x lt =
    smear_by_lt k 16 _
      (smear_by_lt k 8 _ (smear_by_lt k 4 _ (smear_by_lt k 2 _ (smear_by_lt k 1 x lt))))

smear-Leading : (k x : ℕ) → Leading k 1 x → Leading k 32 (smear x)
unfolding smear
smear-Leading k x one = smear_by-Leading k 16 _ (
    smear_by-Leading k 8 _
      (smear_by-Leading k 4 _ (smear_by-Leading k 2 _ (smear_by-Leading k 1 x one))))

smear_lem : (k x : ℕ) → k ≤ 32 → x < 2 ^ k → Leading k 1 x → smear x + 1 ≡ 2 ^ k
unfolding Leading
smear_lem k x short lt one =
    all_ones k (smear x) (smear_lt k x lt) (λ i below. smear-Leading k x one i below (omega arith))

pow2roundup-suc : (m : ℕ) → pow2roundup (suc m) ≡ (smear m + 1) % 2 ^ 32
unfolding pow2roundup
pow2roundup-suc m =
    let less_one : suc m - 1 ≡ m = omega arith in
    let more : (suc m == 0) ≡ false = ground arith in rw (more, less_one) refl

-- For a 32-bit number of at most 2^31, the result is the least power of two that is not below it;
-- for a greater one the result is 0, since 2^32 is not a 32-bit number.
pub pow2roundup_lem :
    (x : ℕ)
    → x < 2 ^ 32
    → ((2 ^ 31 < x) × (pow2roundup x ≡ 0))
      ⊎ ((k : ℕ) × (pow2roundup x ≡ 2 ^ k) × (x ≤ 2 ^ k) × ((j : ℕ) → x ≤ 2 ^ j → k ≤ j))
unfolding pow2roundup
pow2roundup_lem zero lt = inr (0, refl, omega arith, λ j h. omega arith)
pow2roundup_lem (suc m) lt =
    let (k, short, small, first, least) = bit_length 32 m (omega arith) in
    let whole : smear m + 1 ≡ 2 ^ k = smear_lem k m short small first in
    elim (dec_le k 31) [
      | yes fits ↦
          let bound : 2 ^ k ≤ 2 ^ 31 = pow-le-pow_right {n = 2} (omega arith) fits in
          let value : (smear m + 1) % 2 ^ 32 ≡ 2 ^ k =
            ap (λ n. n % 2 ^ 32) whole ∙ mod-eq_of_lt (omega (arith, bound)) in
          inr (k, pow2roundup-suc m ∙ value, small, λ j h. least j (omega arith))
      | no above ↦
          let full : k ≡ 32 = omega arith in
          let value : smear m + 1 ≡ 2 ^ 32 = whole ∙ ap (λ n. 2 ^ n) full in
          inl (
            elim (dec_lt m (2 ^ 31)) [
              | yes less ↦ absurd (omega (arith, least 31 less))
              | no more ↦ omega arith
            ],
            pow2roundup-suc m ∙ ap (λ n. n % 2 ^ 32) value,
          )
    ]
