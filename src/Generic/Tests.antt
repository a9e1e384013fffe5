-- ===== src/Generic/Tests.antt =====
-- Concrete runs of the generic port, and the theorems at them.
use native.Mathlib.Nat.{mod-eq_of_lt}
use ssmp.Base.{
  ℕ, zero, suc, ◌+◌, ◌<◌, ◌%◌, ◌^◌, ◌≡◌, ◌≢◌, ◌⊎◌, refl, true, false, arith, [], ◌∷◌, some,
  get_elem?, if◌then◌else◌, ◌==◌,
}
use ssmp.Base.Outcome.{done}
use ssmp.Message.{Msg, Slots, ssmp_buf_messg, state, set_state, set_sender, release, acquire}
use ssmp.Message.Laws.{Received}
use ssmp.ColorBuf.{ColorBuf, IsFilled}
use ssmp.Poll.{Env, memory, scan, await}
use ssmp.Generic.{
  recv, recv_probe, recv_from, recv_color, color_probe, collect, recv_color_start, send,
  send_no_sync,
}
use ssmp.Generic.Recv.{recv_lem}
use ssmp.Generic.Fair.{distance, recv_color_start_fair}

-- a message from process 2 is pending
abbrev pending : Slots
pending i =
    if i == 2 then record { words = 7 ∷ 8 ∷ []; pad = 1 } else record { words = []; pad = 0 }

abbrev quiet : Env Slots
quiet _ s = s

-- the message with its sender
abbrev tagged : Msg
tagged = record { words = 7 ∷ 8 ∷ []; pad = 2 }

abbrev greeting : Msg
greeting = record { words = 5 ∷ []; pad = 0 }

abbrev greeting_sent : Msg
greeting_sent = record { words = 5 ∷ []; pad = 1 }

-- entries about processes 2 and 3
abbrev two_entries : ColorBuf
two_entries = record { num_ues = 2; buf_state = 2 ∷ 3 ∷ []; buf = 2 ∷ 3 ∷ []; from = 2 ∷ 3 ∷ [] }

abbrev two_three : ℕ → ℕ
two_three i = i + 2

two_or_three : (i : ℕ) → i < 2 → get_elem? (2 ∷ 3 ∷ []) i ≡ some (two_three i)
two_or_three zero lt = refl
two_or_three (suc zero) lt = refl
two_or_three (suc (suc i)) lt = absurd (omega arith)

two_entries-IsFilled : IsFilled two_entries two_three
two_entries-IsFilled = record {
  states = two_or_three;
  bufs = two_or_three;
  froms = λ i lt. rw (mod-eq_of_lt {n = two_three i} {m = 256} (omega arith)) (two_or_three i lt);
}

pending-always : (u : ℕ) → memory quiet pending u ≡ pending
unfolding memory
pending-always zero = refl
pending-always (suc u) = pending-always u

pending_at_two : (u : ℕ) → state (memory quiet pending (suc u) 2) ≡ ssmp_buf_messg
unfolding state
pending_at_two u = rw (pending-always (suc u)) refl

recv_run : recv false 0 quiet 4 10 pending ≡ done (tagged, release pending 2)
unfolding recv recv_probe scan acquire set_sender state
recv_run = refl

recv_lem_example :
    (m : Msg) × (s' : Slots) × (recv false 0 quiet 4 10 pending ≡ done (m, s'))
    × (u from : ℕ) × (from < 4)
    × (from ≢ 0)
    × Received (memory quiet pending (suc u)) from from m s'
recv_lem_example =
    recv_lem false 0 quiet pending 4 10 (omega arith) 2 (omega arith) (omega arith) (omega arith)
      pending_at_two

send_run :
    send false quiet 3 1 greeting pending
    ≡ done (greeting_sent, (send_no_sync 1 greeting pending).1)
unfolding send await acquire set_state state send_no_sync
send_run = refl

recv_from_run :
    recv_from false quiet 3 2 pending
    ≡ done (record { words = 7 ∷ 8 ∷ []; pad = 1 }, release pending 2)
unfolding recv_from await acquire state
recv_from_run = refl

recv_color_run : recv_color false quiet two_entries 6 pending ≡ done (tagged, release pending 2)
unfolding recv_color color_probe collect scan acquire set_sender state
recv_color_run = refl

recv_color_start_fair_example :
    (m : Msg) × (s : Slots) × (next u k : ℕ) × (recv_color_start true quiet two_entries 6 1 pending
      ≡ done (m, s, next))
    × (next < 2)
    × Received (memory quiet pending (suc u)) (two_three k) (two_three k % 2 ^ 8) m s
    × ((k ≡ 0) ⊎ (distance 2 next 0 < distance 2 1 0))
recv_color_start_fair_example =
    recv_color_start_fair true two_entries two_three two_entries-IsFilled quiet pending 6 1 0
      (omega arith) (omega arith) (omega arith) pending_at_two
