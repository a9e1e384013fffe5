-- ===== src/Tile.antt =====
-- src/arch/tile/ssmp_arch.c: the barriers on Tilera, which are those of the TMC library.
pub mod Udn
pub mod Port
pub mod Boot
pub mod Delivery
mod Tests
use ssmp.Base.{
  ℕ, zero, suc, ◌+◌, ◌%◌, ◌^◌, ◌≤◌, ◌<◌, ◌≡◌, ◌≢◌, refl, arith, List, Option, none, some, set,
  if◌then◌else◌, ◌==◌, ltb, ap, ◌∙◌,
}
use ssmp.Base.Int.{ℤ, pos, negsuc}
use ssmp.Base.Outcome.{Outcome, done, fault}
use ssmp.Barrier.{Barrier, Color, u32, fresh_barrier, count_part, ssmp_num_barriers}
use ssmp.Barrier.Count.{weight, everyone, sum_from, everyone-sum_from, count_part_in}

-- the loop of `ssmp_barrier_init_platf` from process `n` on, with `k` processes left
unfoldable pub count_colored : Color → ℕ → ℕ → ℕ → ℕ
count_colored color zero n num_part = num_part
count_colored color (suc k) n num_part =
    count_colored color k (n + 1) (if color n == 0 then num_part else u32 (num_part + 1))

-- `ssmp_barrier_init_platf`. A TMC barrier is the number of processes that it waits for, which
-- `tmc_sync_barrier_init` sets; a NULL color function is called.
unfoldable pub barrier_init : ℤ → Option Color → ℕ → List ℕ → Outcome (List ℕ)
unfolding count_colored
barrier_init (pos b) color num_ues bs =
    if ltb b ssmp_num_barriers
    then elim color [ none ↦ fault | some col ↦ done (set bs b (count_colored col num_ues 0 0)) ]
    else done bs
barrier_init (negsuc b) color num_ues bs = fault

module _ (col : Color) (binary : (i : ℕ) → col i ≤ 1) where
  abbrev shared : Barrier
  shared = fresh_barrier (some col)

  count_colored-sum_from :
      (k n np : ℕ)
      → np < 2 ^ 32
      → count_colored col k n np ≡ u32 (np + sum_from (weight shared) n k)
  unfolding count_colored sum_from
  count_colored-sum_from zero n np small = ground arith
  count_colored-sum_from (suc k) n np small = ground (
    arith,
    binary n,
    count_colored-sum_from k (n + 1) np,
    count_colored-sum_from k (n + 1) (u32 (np + 1)),
  )

  -- For a color function of zeros and ones, a Tilera barrier waits for as many processes as each
  -- of its participants counts on x86.
  pub count_colored-count_part :
      (id num_ues : ℕ)
      → col id ≡ 1
      → count_part shared id num_ues ≡ some (count_colored col num_ues 0 0)
  count_colored-count_part id num_ues e =
      count_part_in shared num_ues id (omega arith)
      ∙ ap some (
          omega
            (arith, count_colored-sum_from num_ues 0 0, everyone-sum_from (weight shared) num_ues))
