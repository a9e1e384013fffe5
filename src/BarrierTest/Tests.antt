-- ===== src/BarrierTest/Tests.antt =====
-- Two rounds of three processes.
use ssmp.Base.{ℕ, ◌<◌, ◌≡◌, ◌≢◌, refl, arith, true, [], ◌∷◌}
use ssmp.Barrier.System.{System, Reach, start, start_state}
use ssmp.Barrier.Leave.{IsLeft}
use ssmp.Message.{Msg, Slots, ssmp_buf_empty, state}
use ssmp.Helpers.Random.{Seeds}
use ssmp.BarrierTest.{Rounds, barrier_at}
use ssmp.BarrierTest.Crossing.{test_loop_lem}

abbrev first_seeds : Seeds
first_seeds = record { x = 123; y = 456; z = 789 }

abbrev blank_message : Msg
blank_message = record { words = 0 ∷ 0 ∷ []; pad = 0 }

abbrev no_messages : Slots
no_messages i = blank_message

abbrev all_idle : ℕ → System
all_idle j = start_state

test_loop_lem_example :
    (t : Slots) × (w : ℕ → System) × Rounds true 9 3
      (λ _. blank_message)
      2
      first_seeds
      no_messages
      all_idle
      t
      w
    × ((i : ℕ) → i < 3 → i ≢ 0 → state (t i) ≡ ssmp_buf_empty)
    × ((j : ℕ) → Reach (barrier_at j) 3 (w j) × IsLeft 3 (w j))
unfolding state
test_loop_lem_example =
    test_loop_lem true 9 3 2 first_seeds (λ _. blank_message) no_messages all_idle (omega arith)
      (omega arith) (λ i lt ne. refl) (λ j. (start, λ i lt. refl))
