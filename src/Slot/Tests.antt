-- ===== src/Slot/Tests.antt =====
-- A message of two words, stored in order and against it, and the theorems at these runs.
use ssmp.Base.{ℕ, ◌+◌, ◌-◌, ◌≤◌, ◌<◌, ◌≡◌, ◌≢◌, ◌⊎◌, inl, refl, arith, true, false}
use ssmp.Slot.{
  away, looking, Slot, call_send, find_empty, store, store_state, call_recv, find_messg, load,
  empty, Reach, begin, then_step,
}
use ssmp.Slot.Words.{with_state}
use ssmp.Slot.Invariant.Defs.{IsLast}
use ssmp.Slot.Order.{messages_in_order}
use ssmp.Mailbox.{Trace}
use ssmp.Slot.Refine.{letter_in, events_of, events_of-Trace}
use ssmp.Slot.Progress.{Advances, slot-Advances}
use ssmp.Slot.Torn.{message_torn}

abbrev in_turn : ℕ → ℕ
in_turn k = k

abbrev backwards : ℕ → ℕ
backwards k = 1 - k

abbrev old : ℕ → ℕ
old j = 0

abbrev nines : ℕ → ℕ
nines j = 9

in_turn-IsLast : IsLast 2 in_turn
in_turn-IsLast = record {
  nonempty = omega arith;
  inside = λ k lt. lt;
  every = λ j lt. (j, lt, refl);
  last = λ k lt e. e;
}

abbrev called : (s : Slot) × Reach true 2 in_turn old s
called = (_, then_step begin (call_send nines refl))

sender_called : called.0.sender ≢ away
sender_called e = cc

abbrev sent_nines : (s : Slot) × Reach true 2 in_turn old s
sent_nines = (
  _,
  then_step
      (then_step (then_step (then_step begin (call_send nines refl)) (find_empty refl refl))
        (store refl (omega arith) (omega arith)))
      (store_state refl (omega arith) refl),
)

abbrev received_nines : (s : Slot) × Reach true 2 in_turn old s
received_nines = (
  _,
  then_step
      (then_step
        (then_step (then_step (then_step sent_nines.1 (call_recv refl)) (find_messg refl refl))
          (load refl (omega arith)))
        (load refl (omega arith)))
      (empty refl),
)

messages_in_order_example :
    (received_nines.0.received ≤ received_nines.0.sent)
    × (received_nines.0.sent ≤ received_nines.0.received + 1)
    × ((i j : ℕ)
        → i < received_nines.0.received
        → j + 1 < 2
        → received_nines.0.got i j ≡ received_nines.0.log i j)
    × ((i : ℕ)
        → i < received_nines.0.received
        → received_nines.0.got i (2 - 1) ≡ with_state 2 (received_nines.0.log i (2 - 1)))
messages_in_order_example = messages_in_order in_turn-IsLast received_nines.1

none_earlier : (j : ℕ) → j < 1 → backwards j ≢ backwards 1
none_earlier j lt e = omega arith

message_torn_example :
    (s : Slot) × Reach false 2 backwards old s
    × (s.received ≡ 1)
    × (s.log 0 ≡ nines)
    × (s.got 0 0 ≡ 0)
message_torn_example =
    message_torn false 2 backwards old 0 1 nines (omega arith) (omega arith) refl (omega arith)
      (λ j lt. absurd (omega arith)) none_earlier

events_of-Trace_example : Trace (events_of received_nines.1) (letter_in 2 received_nines.0)
events_of-Trace_example = events_of-Trace in_turn-IsLast received_nines.1

slot-Advances_example :
    Advances true 2 in_turn called.0
    ⊎ ((called.0.sender ≡ looking) × (called.0.flag ≡ 1) × (called.0.receiver ≡ away))
    ⊎ ((called.0.receiver ≡ looking) × (called.0.flag ≡ 0) × (called.0.sender ≡ away))
slot-Advances_example = slot-Advances in_turn-IsLast called.1 (inl sender_called)
