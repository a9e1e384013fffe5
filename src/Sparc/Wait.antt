-- ===== src/Sparc/Wait.antt =====
-- `ssmp_barrier_wait_platf` of src/arch/sparc/ssmp_arch.c from the counting on, as one process runs it
-- while the others change the barrier.
pub mod Walk
pub mod Call
mod Tests
use ssmp.Base.{
  ℕ, zero, suc, ◌+◌, ◌-◌, ◌^◌, ◌≡◌, ◌≢◌, refl, arith, Option, none, some, if◌then◌else◌, ◌==◌, ltb,
  ℕ_discrete,
}
use ssmp.Base.Int.{ℤ, pos, negsuc}
use ssmp.Base.Outcome.{Outcome, done, fault, ◌>>=◌, >>=-done}
use ssmp.Poll.{Env, await}
use ssmp.Barrier.{Barrier, u32, ssmp_num_barriers}
use ssmp.Barrier.System.{Shared}
use ssmp.Sparc.{count_part}

-- `!(b->cleared == 1)`
unfoldable pub is_shut : Shared → Option Shared
is_shut m = if m.cleared == 1 then none else some m

-- `!(b->cleared == 0)`
unfoldable pub is_open : Shared → Option Shared
is_open m = if m.cleared == 0 then none else some m

-- What the other processes do to the barrier: before each look of the two loops, and before the other
-- accesses.
pub record Others : Type 0 where
  pub loop : ℕ → Env Shared
  pub gap : ℕ → Shared → Shared

module _ (o : Others) where
  -- `my_ticket = atomic_inc_32_nv(&b->ticket); if (my_ticket == num_part) b->cleared = 1;`
  unfoldable pub take_ticket : (num_part : ℕ) → Shared → Shared
  take_ticket num_part m =
      let before = o.gap 0 m in
      let my_ticket = u32 (before.ticket + 1) in
      let after_it = o.gap 1 (record before { ticket = my_ticket }) in
      if my_ticket == num_part then record after_it { cleared = 1 } else after_it

  -- `my_ticket = atomic_dec_32_nv(&b->ticket); if (my_ticket == 0) b->cleared = 0;`; `round` is the
  -- history variable of Barrier/System.
  unfoldable pub give_ticket : Shared → Shared
  give_ticket m =
      let before = o.gap 2 m in
      let my_ticket = u32 (before.ticket + 2 ^ 32 - 1) in
      let after_it = o.gap 3 (record before { ticket = my_ticket }) in
      if my_ticket == 0
      then record after_it { cleared = 0; round = after_it.round + 1 }
      else after_it

  -- `ssmp_barrier_wait_platf` for process `id` on barrier `barrier_num`, whose two fixed fields are in
  -- `b`: what it leaves
  unfoldable pub barrier_wait :
      (fuel : ℕ) (barrier_num : ℤ) → Barrier → (id num_ues : ℕ) → Shared → Outcome Shared
  unfolding take_ticket give_ticket
  barrier_wait fuel (pos n) b id num_ues m =
      if ltb n ssmp_num_barriers
      then elim (count_part b id num_ues) [
        | none ↦ done m
        | some num_part ↦ do
          shut ← await (o.loop 0) is_shut fuel 0 m
          opened ← await (o.loop 1) is_open fuel 0 (take_ticket num_part shut)
          done (give_ticket opened)
      ]
      else done m
  barrier_wait fuel (negsuc n) b id num_ues m = fault
