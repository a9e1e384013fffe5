-- ===== src/Sparc/Wait/Tests.antt =====
-- Two processes at a barrier on SPARC: the one that runs here arrives first, the other one second.
use ssmp.Base.{ℕ, ◌+◌, ◌≡◌, ◌⊎◌, refl, none, some, arith, inl, inr, ℕ_discrete, if◌then◌else◌, ◌==◌}
use ssmp.Base.Int.{pos}
use ssmp.Base.Outcome.{done}
use ssmp.Poll.{memory, await}
use ssmp.Barrier
use ssmp.Barrier.{Barrier, fresh_barrier, u32}
use ssmp.Barrier.System.{outside, Shared}
use ssmp.Sparc.{count_part, count_loop}
use ssmp.Sparc.Wait.{is_shut, is_open, Others, take_ticket, give_ticket, barrier_wait}
use ssmp.Sparc.Wait.Walk.{Walk, at_pc}
use ssmp.Sparc.Wait.Call.{Free, Opens, barrier_wait-Walk_total}

abbrev everyone : Barrier
everyone = fresh_barrier none

abbrev closed : Shared
closed = record { ticket = 0; cleared = 0; round = 0 }

-- the arrival of the last process
abbrev second_arrives : Shared → Shared
second_arrives m = record m { ticket = u32 (m.ticket + 1); cleared = 1 }

abbrev between : Others
between = record { loop = λ i t m. if (i + t) == 1 then second_arrives m else m; gap = λ k m. m }

abbrev Second : Shared → Shared → Type 0
Second m m' = (m' ≡ m) ⊎ (m' ≡ second_arrives m)

loop-Second : (i t : ℕ) (m : Shared) → Second m (between.loop i t m)
loop-Second i t m = elim (ℕ_discrete (i + t) 1) [
  | yes e ↦ inr (ground arith)
  | no ne ↦ inl (ground arith)
]

gap-Second : (k : ℕ) (m : Shared) → Second m (between.gap k m)
gap-Second k m = inl refl

-- It passes the barrier while the other one still has to leave.
barrier_wait-run :
    barrier_wait between 2 (pos 3) everyone 0 2 closed
    ≡ done (record { ticket = 1; cleared = 1; round = 0 })
unfolding barrier_wait take_ticket give_ticket await is_shut is_open count_part count_loop
barrier_wait-run = refl

closed-Free : Free between 2 closed
unfolding Free memory
closed-Free = (0, omega arith, ground arith)

between-Opens : Opens between 2 2
unfolding Opens memory
between-Opens s = (0, omega arith, ground arith)

count_part-run : Barrier.count_part everyone 0 2 ≡ some 2
unfolding Barrier.count_part Barrier.count_loop
count_part-run = refl

barrier_wait-Walk_total_example :
    (m' : Shared) × (barrier_wait between 2 (pos 3) everyone 0 2 closed ≡ done m')
    × Walk (some 2) Second closed (at_pc outside 0 0) m' (at_pc outside 1 1)
barrier_wait-Walk_total_example =
    barrier_wait-Walk_total between Second loop-Second gap-Second everyone 3 0 2 2 2 0 0 closed
      (omega arith) count_part-run closed-Free between-Opens
