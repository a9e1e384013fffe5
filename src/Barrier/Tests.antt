-- ===== src/Barrier/Tests.antt =====
-- Concrete runs of the barrier, and the theorems at them.
use ssmp.Base.{
  ℕ, zero, suc, replicate, if◌then◌else◌, ◌==◌, ◌+◌, ◌≤◌, ◌<◌, ◌≡◌, ◌≢◌, refl, none, some, arith,
  List, ℕ_discrete,
}
use ssmp.Base.Family.{total, update}
use ssmp.Barrier.{Barrier, fresh_barrier, count_part, u32}
use ssmp.Barrier.Count.{weight, everyone, count_part_lem}
use ssmp.Barrier.System.{
  System, outside, entering, arriving, arrived, Reach, Step, start, next, pick, call, enter, arrive,
  start_state,
}
use ssmp.Barrier.Invariant.{IsUsable, inside, tickets_counted}
use ssmp.Barrier.Safety.{nobody_overtakes}
use ssmp.Barrier.Progress.{no_deadlock, rank}

abbrev plain : Barrier
plain = fresh_barrier none

plain-IsUsable : IsUsable plain 2
unfolding total
plain-IsUsable = record { few = omega arith; binary = λ i. omega arith; someone = omega arith }

count_part-plain : count_part plain 0 2 ≡ some 2
unfolding count_part
count_part-plain = refl

-- Process 0 has arrived; process 1 is about to.
abbrev half_way : System
half_way = record {
  mem = record { ticket = 1; cleared = 0; round = 0 };
  proc =
      update
        (update (update start_state.proc 0 (record { pc = entering 2; arrivals = 0; passes = 0 })) 0
          (record { pc = arriving 2; arrivals = 0; passes = 0 }))
        0 (record { pc = arrived 2 1; arrivals = 1; passes = 0 });
}

half_way-Reach : Reach plain 2 half_way
unfolding ℕ_discrete
half_way-Reach =
    next
      (next (next start (pick 0 (omega arith) (call count_part-plain)))
        (pick 0 (omega arith) (enter (omega arith))))
      (pick 0 (omega arith) arrive)

nobody_overtakes_example :
    ((half_way.proc 1).passes ≤ (half_way.proc 0).arrivals)
    × ((half_way.proc 1).arrivals ≤ (half_way.proc 0).passes + 1)
nobody_overtakes_example =
    nobody_overtakes plain-IsUsable half_way-Reach 1 0 (omega arith) (omega arith) (omega arith)
      (omega arith)

tickets_counted_example :
    (half_way.mem.cleared ≤ 1)
    × (half_way.mem.ticket ≡ total inside 2 half_way.proc)
    × (half_way.mem.ticket ≤ everyone (weight plain) 2)
tickets_counted_example = tickets_counted plain 2 plain-IsUsable half_way-Reach

count_part_lem_example :
    count_part plain 0 2
    ≡ (if weight plain 0 == 0 then none else some (u32 (everyone (weight plain) 2)))
count_part_lem_example = count_part_lem plain 2 0 (omega arith)

abbrev all_barriers : List Barrier
all_barriers = replicate 16 plain

-- Both have called.
abbrev both_called : System
both_called = record {
  mem = record { ticket = 0; cleared = 0; round = 0 };
  proc =
      update (update start_state.proc 0 (record { pc = entering 2; arrivals = 0; passes = 0 })) 1
        (record { pc = entering 2; arrivals = 0; passes = 0 });
}

count_part-plain_other : count_part plain 1 2 ≡ some 2
unfolding count_part
count_part-plain_other = refl

both_called-Reach : Reach plain 2 both_called
unfolding ℕ_discrete
both_called-Reach =
    next (next start (pick 0 (omega arith) (call count_part-plain)))
      (pick 1 (omega arith) (call count_part-plain_other))

nobody_outside : (i : ℕ) → i < 2 → (both_called.proc i).pc ≢ outside
unfolding ℕ_discrete
nobody_outside zero lt = λ e. cc
nobody_outside (suc zero) lt = λ e. cc
nobody_outside (suc (suc i)) lt = absurd (omega arith)

no_deadlock_example :
    (i : ℕ) × (i < 2)
    × (t : System) × Step plain 2 both_called t
    × (rank (t.proc i) < rank (both_called.proc i))
no_deadlock_example = no_deadlock plain-IsUsable both_called-Reach (λ z i lt w. nobody_outside i lt)
