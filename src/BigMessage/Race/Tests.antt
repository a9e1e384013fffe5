-- ===== src/BigMessage/Race/Tests.antt =====
-- Blocks of two bytes through a chunk of two, and the theorems at them.
use ssmp.Base.{ℕ, ◌+◌, ◌≤◌, ◌<◌, ◌≡◌, refl, arith, if◌then◌else◌, ◌==◌}
use ssmp.BigMessage.Race.{
  Pair, see_clear, put_byte, raise_state, see_raised, get_byte, clear_state, Reach, fresh, after,
}
use ssmp.BigMessage.Race.Order.{IsQuiet, blocks_in_order}
use ssmp.BigMessage.Race.Twice.{received_twice}

abbrev two : ℕ → ℕ
two k = 2

abbrev sevens : ℕ → ℕ → ℕ
sevens k j = 7

abbrev quiet_bytes : ℕ → ℕ → ℕ
quiet_bytes k j = if j == 1 then 0 else 7

abbrev zeros : ℕ → ℕ
zeros j = 0

quiet_bytes-IsQuiet : IsQuiet 2 two quiet_bytes
quiet_bytes-IsQuiet = record {
  nonempty = omega arith;
  fits = λ k. omega arith;
  quiet = λ k e. refl;
}

abbrev sent_one : (s : Pair) × Reach 2 two quiet_bytes zeros s
sent_one = (
  _,
  after
      (after (after (after fresh (see_clear refl refl)) (put_byte refl (omega arith)))
        (put_byte refl (omega arith)))
      (raise_state refl),
)

abbrev received_one : (s : Pair) × Reach 2 two quiet_bytes zeros s
received_one = (
  _,
  after
      (after
        (after (after sent_one.1 (see_raised refl (omega arith))) (get_byte refl (omega arith)))
        (get_byte refl (omega arith)))
      (clear_state refl),
)

blocks_in_order_example :
    (received_one.0.received ≤ received_one.0.sent)
    × (received_one.0.sent ≤ received_one.0.received + 1)
    × ((i j : ℕ)
        → i < received_one.0.received
        → j < two i
        → received_one.0.got i j ≡ (if j + 1 == 2 then 1 else quiet_bytes i j))
blocks_in_order_example = blocks_in_order 2 two quiet_bytes quiet_bytes-IsQuiet received_one.1

received_twice_example :
    (s : Pair) × Reach 2 two sevens zeros s
    × (s.sent ≡ 1)
    × (s.received ≡ 2)
    × ((i j : ℕ) → i < 2 → j + 1 < 2 → s.got i j ≡ sevens 0 j)
received_twice_example = received_twice 2 two sevens zeros (omega arith) refl refl (omega arith)
