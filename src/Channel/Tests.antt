-- ===== src/Channel/Tests.antt =====
-- A message of one double word through a buffer, and the theorem at that run.
use ssmp.Base.{ℕ, ◌+◌, ◌≤◌, ◌<◌, ◌≡◌, refl, arith}
use ssmp.Channel.{
  Dwords, Channel, call_send, see_empty, put, set_messg, call_recv, see_messg, get, set_empty,
  nothing, Reach, start, next,
}
use ssmp.Channel.Fifo.{receives_in_order}
use ssmp.Mailbox.{Trace}
use ssmp.Channel.Refine.{view, events, Reach-Trace}

abbrev sevens : Dwords
sevens i = 7

abbrev after_copy : (s : Channel) × Reach 1 nothing s
after_copy = (
  _,
  next
      (next
        (next (next (next start (call_send sevens refl)) (see_empty refl refl))
          (put refl (omega arith)))
        (set_messg refl))
      (call_recv refl),
)

abbrev after_receive : (s : Channel) × Reach 1 nothing s
after_receive = (
  _,
  next (next (next after_copy.1 (see_messg refl refl)) (get refl (omega arith))) (set_empty refl),
)

receives_in_order_example :
    (after_receive.0.received ≤ after_receive.0.sent)
    × (after_receive.0.sent ≤ after_receive.0.received + 1)
    × ((i j : ℕ)
        → i < after_receive.0.received
        → j < 1
        → after_receive.0.got i j ≡ after_receive.0.log i j)
receives_in_order_example = receives_in_order after_receive.1

Reach-Trace_example : Trace (events after_receive.1) (view 1 after_receive.0)
Reach-Trace_example = Reach-Trace after_receive.1
