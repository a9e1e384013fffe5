-- ===== src/Base/Family.antt =====
-- Families `ℕ → A` indexed by process: an update at one index, and sums over the first `n`.
use Prim.Native.Nat.{ℕ, zero, suc, ◌+◌, ◌*◌, ◌≤◌, ◌<◌}
use mathlib.Core.Path.{◌≡◌, refl, ap, fun_ext}
use mathlib.Core.Logic.{◌≢◌}
use native.Mathlib.Decide.{dec_lt, ℕ_discrete}
use native.Mathlib.Omega.{arith}
use ssmp.Base.Tests.{ltb, ◌==◌, if◌then◌else◌}

abbrev pub update {ℓ} : {A : Type ℓ} → (ℕ → A) → ℕ → A → ℕ → A
update xs i x j = if i == j then x else xs j

module _ {ℓ} {A : Type ℓ} where
  pub update_self : (f : ℕ → A) (i : ℕ) (a : A) → update f i a i ≡ a
  update_self f i a = ground arith

  pub update_ne : (f : ℕ → A) (i j : ℕ) (a : A) → i ≢ j → update f i a j ≡ f j
  update_ne f i j a h = ground arith

  -- The last of two updates at one index counts.
  pub update-update : (f : ℕ → A) (i : ℕ) (a b : A) → update (update f i a) i b ≡ update f i b
  update-update f i a b = fun_ext (λ j. ground arith)

module _ {ℓ} {A : Type ℓ} (w : A → ℕ) where
  unfoldable pub total : ℕ → (ℕ → A) → ℕ
  total zero xs = 0
  total (suc k) xs = w (xs k) + total k xs

  -- A change of one summand outside the sum leaves it, and one inside changes it by the difference.
  total-update_cases :
      (xs : ℕ → A) (i : ℕ) (x : A) (k : ℕ)
      → total k xs + (if ltb i k then w x else 0)
        ≡ (if ltb i k then w (xs i) else 0) + total k (update xs i x)
  unfolding total
  total-update_cases xs i x zero = ground arith
  total-update_cases xs i x (suc k) = elim (ℕ_discrete i k) [
    | yes here ↦ ground (arith, total-update_cases xs i x k, ap (λ j. w (xs j)) here)
    | no elsewhere ↦ ground (arith, total-update_cases xs i x k)
  ]

  pub total-update :
      (k : ℕ) (xs : ℕ → A) (i : ℕ) (x : A)
      → i < k
      → w x + total k xs ≡ total k (update xs i x) + w (xs i)
  total-update k xs i x inside = ground (arith, total-update_cases xs i x k)

  -- one summand is at most the sum
  pub le-total : (n : ℕ) (f : ℕ → A) (i : ℕ) → i < n → w (f i) ≤ total n f
  unfolding total
  le-total zero f i h = absurd (omega arith)
  le-total (suc n) f i h = elim (dec_lt i n) [
    | yes below ↦ omega (arith, le-total n f i below)
    | no last ↦ ground arith
  ]

  pub total-le : (n k : ℕ) (f : ℕ → A) → ((i : ℕ) → w (f i) ≤ k) → total n f ≤ n * k
  unfolding total
  total-le zero k f small = omega arith
  total-le (suc n) k f small = grind (arith, small n, total-le n k f small)

  pub total-const : (n k : ℕ) (f : ℕ → A) → ((i : ℕ) → w (f i) ≡ k) → total n f ≡ n * k
  unfolding total
  total-const zero k f e = omega arith
  total-const (suc n) k f e = grind (arith, e n, total-const n k f e)

-- Two families compared index by index.
module _ {ℓ κ} {A : Type ℓ} {B : Type κ} (w : A → ℕ) (v : B → ℕ) where
  pub total_mono :
      (n : ℕ) (f : ℕ → A) (g : ℕ → B)
      → ((i : ℕ) → i < n → w (f i) ≤ v (g i))
      → total w n f ≤ total v n g
  unfolding total
  total_mono zero f g h = omega arith
  total_mono (suc n) f g h =
      omega (arith, h n (omega arith), total_mono n f g (λ i lt. h i (omega arith)))

  -- Equal sums of ordered summands have equal summands.
  pub total_tight :
      (n : ℕ) (f : ℕ → A) (g : ℕ → B)
      → ((i : ℕ) → i < n → w (f i) ≤ v (g i))
      → total w n f ≡ total v n g
      → (i : ℕ) → i < n
      → w (f i) ≡ v (g i)
  unfolding total
  total_tight zero f g h e i lt = absurd (omega arith)
  total_tight (suc n) f g h e i lt = elim (dec_lt i n) [
    | yes below ↦
        total_tight n f g (λ j p. h j (omega arith))
          (omega (arith, h n (omega arith), total_mono n f g (λ j p. h j (omega arith)))) i below
    | no last ↦
        let same : i ≡ n = omega arith in
        rw same (omega (arith, h n (omega arith), total_mono n f g (λ j p. h j (omega arith))))
  ]

module _ {ℓ} {A : Type ℓ} (w : A → ℕ) where
  -- A sum that is not zero has a summand that is not zero.
  pub total_find : (n : ℕ) (f : ℕ → A) → total w n f ≢ 0 → (i : ℕ) × (i < n) × (w (f i) ≢ 0)
  unfolding total
  total_find zero f h = absurd (h refl)
  total_find (suc n) f h = elim (ℕ_discrete (w (f n)) 0) [
    | no here ↦ (n, omega arith, here)
    | yes e ↦ let (i, lt, found) = total_find n f (λ z. h (omega arith)) in (i, omega arith, found)
  ]

  pub total-zero : (n : ℕ) (f : ℕ → A) → ((i : ℕ) → i < n → w (f i) ≡ 0) → total w n f ≡ 0
  unfolding total
  total-zero zero f h = refl
  total-zero (suc n) f h =
      omega (arith, h n (omega arith), total-zero n f (λ i lt. h i (omega arith)))

-- the sum of the first `n` values
abbrev pub sum_below : ℕ → (ℕ → ℕ) → ℕ
sum_below n f = total (λ x. x) n f

-- Sums of equal summands are equal.
pub total_ext :
    (n : ℕ) (f g : ℕ → ℕ) → ((c : ℕ) → c < n → f c ≡ g c) → sum_below n f ≡ sum_below n g
unfolding total
total_ext zero f g same = refl
total_ext (suc n) f g same =
    omega (arith, same n (omega arith), total_ext n f g (λ c lt. same c (omega arith)))
