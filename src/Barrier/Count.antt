-- ===== src/Barrier/Count.antt =====
-- What the counting loop of `ssmp_barrier_wait_platf` computes: who takes part, and how many do.
use native.Mathlib.Nat.{pow-suc, div-div-eq-div-mul, div-eq_of_lt, pow-le-pow_right}
use native.Mathlib.Numerals.{add-one}
use ssmp.Base.{
  ℕ, zero, suc, ◌+◌, ◌/◌, ◌%◌, ◌^◌, ◌≤◌, ◌<◌, ◌≡◌, ◌≢◌, refl, none, some, arith, ℕ_discrete,
  if◌then◌else◌, ◌==◌, ap, ◌∙◌, List, true, every_below, every_below_sound, ==_iff, length,
  get_elem?, set, lt→ltb, get_elem?-set_self,
}
use ssmp.Base.Outcome.{done}
use ssmp.Base.Int.{pos}
use ssmp.Base.Family.{total}
use ssmp.Barrier.{
  barrier_init, ssmp_num_barriers, fresh_barrier, all_ones, Barrier, u32, count_of, count_loop,
  count_part,
}

-- What process `i` counts for: its color, or its bit of the bitmap.
abbrev pub weight : Barrier → ℕ → ℕ
weight b i = elim b.color [ some col ↦ col i | none ↦ b.participants % 2 ^ 64 / 2 ^ i % 2 ]

-- `w from + … + w (from + k - 1)`
unfoldable pub sum_from : (ℕ → ℕ) → ℕ → ℕ → ℕ
sum_from w from zero = 0
sum_from w from (suc k) = w from + sum_from w (from + 1) k

sum_from_last :
    (w : ℕ → ℕ) (k from : ℕ) → sum_from w from (suc k) ≡ sum_from w from k + w (from + k)
unfolding sum_from
sum_from_last w zero from = ground arith
sum_from_last w (suc k) from =
    let e : from + 1 + k ≡ from + suc k = omega arith in
    omega (arith, sum_from_last w k (from + 1), ap w e)

abbrev pub everyone : (ℕ → ℕ) → ℕ → ℕ
everyone w n = total (λ (x : ℕ). x) n w

pub everyone-sum_from : (w : ℕ → ℕ) (n : ℕ) → everyone w n ≡ sum_from w 0 n
unfolding total sum_from
everyone-sum_from w zero = refl
everyone-sum_from w (suc n) =
    let e : 0 + n ≡ n = omega arith in
    omega (arith, everyone-sum_from w n, sum_from_last w n 0, ap w e)

-- the bitmap as the loop finds it in the round of process `from`
abbrev Shifted : Barrier → ℕ → ℕ → Type 0
Shifted b from bpar = bpar ≡ b.participants % 2 ^ 64 / 2 ^ from

Shifted-next : (b : Barrier) (from bpar : ℕ) → Shifted b from bpar → Shifted b (from + 1) (bpar / 2)
Shifted-next b from bpar h =
    rw (h, add-one, pow-suc 2 from) (div-div-eq-div-mul (b.participants % 2 ^ 64) (2 ^ from) 2)

count_of-weight :
    (b : Barrier) (from bpar : ℕ) → Shifted b from bpar → count_of b.color from bpar ≡ weight b from
unfolding count_of
count_of-weight b from bpar h = ground arith

module _ (b : Barrier) (id : ℕ) where
  count_loop_in :
      (k from bpar np : ℕ)
      → Shifted b from bpar
      → weight b id ≢ 0
      → np < 2 ^ 32
      → count_loop b.color id k from bpar np ≡ some (u32 (np + sum_from (weight b) from k))
  unfolding count_loop sum_from
  count_loop_in zero from bpar np h w lt = ground arith
  count_loop_in (suc k) from bpar np h w lt = ground (
    arith,
    count_of-weight b from bpar h,
    count_loop_in k (from + 1) (bpar / 2) (u32 (np + count_of b.color from bpar))
        (Shifted-next b from bpar h),
  )

  count_loop_out :
      (k from bpar np : ℕ)
      → Shifted b from bpar
      → weight b id ≡ 0
      → from ≤ id
      → id < from + k
      → count_loop b.color id k from bpar np ≡ none
  unfolding count_loop
  count_loop_out zero from bpar np h w le lt = absurd (omega arith)
  count_loop_out (suc k) from bpar np h w le lt = elim (ℕ_discrete from id) [
    | yes e ↦ ground (arith, count_of-weight b from bpar h, ap (weight b) e)
    | no ne ↦ ground (
      arith,
      count_loop_out k (from + 1) (bpar / 2) (u32 (np + count_of b.color from bpar))
          (Shifted-next b from bpar h),
    )
  ]

module _ (b : Barrier) (num_ues id : ℕ) where
  -- A process that takes part gets the number of participants.
  pub count_part_in :
      weight b id ≢ 0 → count_part b id num_ues ≡ some (u32 (everyone (weight b) num_ues))
  unfolding count_part
  count_part_in w = rw everyone-sum_from (
      count_loop_in b id num_ues 0 _ 0 (ground arith) w (omega arith)
      ∙ ap (λ (x : ℕ). some (u32 x)) (omega arith))

  -- A process that does not returns from the loop.
  pub count_part_out : weight b id ≡ 0 → id < num_ues → count_part b id num_ues ≡ none
  unfolding count_part
  count_part_out w lt =
      count_loop_out b id num_ues 0 _ 0 (ground arith) w (omega arith) (omega arith)

  -- What the counting loop of `ssmp_barrier_wait` computes for a process `id` below `num_ues`:
  -- nothing, that is the early return, if its color, or without a color function its bit of the
  -- 64-bit bitmap, is 0; and else the sum over all processes, as a 32-bit integer.
  pub count_part_lem :
      id < num_ues
      → count_part b id num_ues
        ≡ (if weight b id == 0 then none else some (u32 (everyone (weight b) num_ues)))
  count_part_lem lt = elim (ℕ_discrete (weight b id) 0) [
    | yes e ↦ ground (arith, count_part_out e lt)
    | no ne ↦ ground (arith, count_part_in ne)
  ]

weight_beyond : (b : Barrier) (id : ℕ) → b.color ≡ none → 64 ≤ id → weight b id ≡ 0
weight_beyond b id e le =
    let wide : 2 ^ 64 ≤ 2 ^ id = pow-le-pow_right (omega arith) le in
    ground (arith, div-eq_of_lt {n = b.participants % 2 ^ 64} {m = 2 ^ id} (omega arith))

-- With no color function only the first 64 processes take part: the others return at once.
pub count_part_beyond_bitmap :
    (b : Barrier) (id num_ues : ℕ)
    → b.color ≡ none
    → 64 ≤ id
    → id < num_ues
    → count_part b id num_ues ≡ none
count_part_beyond_bitmap b id num_ues e le lt =
    count_part_out b num_ues id (weight_beyond b id e le) lt

bits_set : every_below 64 (λ i. all_ones % 2 ^ 64 / 2 ^ i % 2 == 1) ≡ true
unfolding every_below
bits_set = refl

weight-fresh : (i : ℕ) → i < 64 → weight (fresh_barrier none) i ≡ 1
weight-fresh i lt =
    (==_iff _ 1).0 (every_below_sound 64 (λ i. all_ones % 2 ^ 64 / 2 ^ i % 2 == 1) bits_set i lt)

everyone-fresh : (n : ℕ) → n ≤ 64 → everyone (weight (fresh_barrier none)) n ≡ n
unfolding total
everyone-fresh zero le = refl
everyone-fresh (suc n) le =
    omega (arith, everyone-fresh n (omega arith), weight-fresh n (omega arith))

-- The bitmap given to `ssmp_barrier_init` is not used: with no color function, a barrier number
-- below 16 and up to 64 processes, every process takes part in the barrier that it leaves, and
-- counts all of them, whatever the bitmap.
pub barrier_init_ignores_bitmap :
    (k bitmap num_ues id : ℕ) (bs : List Barrier)
    → k < ssmp_num_barriers
    → length bs ≡ ssmp_num_barriers
    → num_ues ≤ 64
    → id < num_ues
    → (bs' : List Barrier) × (b : Barrier) × (barrier_init (pos k) bitmap none bs ≡ done bs')
      × (get_elem? bs' k ≡ some b)
      × (count_part b id num_ues ≡ some num_ues)
unfolding barrier_init
barrier_init_ignores_bitmap k bitmap num_ues id bs lt len le here = (
  set bs k (fresh_barrier none),
  fresh_barrier none,
  rw (lt→ltb k 16 lt),
  get_elem?-set_self bs k (fresh_barrier none) (omega arith),
  count_part_in (fresh_barrier none) num_ues id (omega (arith, weight-fresh id (omega arith)))
      ∙ ap some (omega (arith, everyone-fresh num_ues le)),
)
