-- ===== src/Bank/Lost/Tests.antt =====
-- A server of two clients, 1 and 3: process 1 has sent EXIT while a deposit of process 3 is pending.
use ssmp.Base.{
  ℕ, zero, suc, ◌+◌, ◌%◌, ◌^◌, ◌<◌, ◌≡◌, refl, arith, true, [], ◌∷◌, some, get_elem?, get_or,
  if◌then◌else◌, ◌==◌,
}
use ssmp.Base.Outcome.{done, spinning}
use ssmp.Message.{Msg, Slots, ssmp_buf_messg, state}
use ssmp.ColorBuf.{ColorBuf, IsFilled}
use ssmp.Poll.{Env, memory}
use ssmp.Generic.{send}
use ssmp.Bank.{Served}
use ssmp.Bank.Lost.{dsl_round, request_left_behind}

abbrev exit_message : Msg
exit_message = record { words = 3 ∷ 0 ∷ 0 ∷ []; pad = 1 }

abbrev deposit_message : Msg
deposit_message = record { words = 0 ∷ 1 ∷ 1 ∷ []; pad = 1 }

abbrev both_pending : Slots
both_pending i = if i == 1 then exit_message else deposit_message

abbrev still : Env Slots
still _ s = s

-- the buffers of client 3: the one to the server, process 0, holds the deposit
abbrev to_server : Slots
to_server i = deposit_message

both_pending-always : (s : Slots) (u : ℕ) → memory still s u ≡ s
unfolding memory
both_pending-always s zero = refl
both_pending-always s (suc u) = both_pending-always s u

abbrev clients : ColorBuf
clients = record { num_ues = 2; buf_state = 1 ∷ 3 ∷ []; buf = 1 ∷ 3 ∷ []; from = 1 ∷ 3 ∷ [] }

abbrev client_at : ℕ → ℕ
client_at i = i + i + 1

client_entry : (i : ℕ) → i < 2 → get_elem? (1 ∷ 3 ∷ []) i ≡ some (client_at i)
client_entry zero lt = refl
client_entry (suc zero) lt = refl
client_entry (suc (suc i)) lt = absurd (omega arith)

client_id : (i : ℕ) → i < 2 → get_elem? (1 ∷ 3 ∷ []) i ≡ some (client_at i % 2 ^ 8)
client_id zero lt = refl
client_id (suc zero) lt = refl
client_id (suc (suc i)) lt = absurd (omega arith)

clients-IsFilled : IsFilled clients client_at
clients-IsFilled = record { states = client_entry; bufs = client_entry; froms = client_id }

exit_pending : state (memory still both_pending 1 1) ≡ ssmp_buf_messg
unfolding memory state
exit_pending = refl

exit_word : 2 < get_or (memory still both_pending 1 1).words 0 0
unfolding memory
exit_word = omega arith

deposit_pending : state (memory still both_pending 1 3) ≡ ssmp_buf_messg
unfolding memory state
deposit_pending = refl

same_message : (u : ℕ) → memory still to_server (suc u) 0 ≡ memory still both_pending 1 3
unfolding memory
same_message u = rw (both_pending-always to_server (suc u)) refl

request_left_behind_example :
    (r : Served) × (s : Slots) × (next : ℕ) × (dsl_round true still clients 5 0 both_pending
        (7 ∷ [])
      ≡ done (r, s, next))
    × (r.stop ≡ true)
    × (r.balances ≡ 7 ∷ [])
    × (s 3 ≡ memory still both_pending 1 3)
    × (send true still 100 0 deposit_message to_server ≡ spinning)
request_left_behind_example =
    request_left_behind true clients client_at clients-IsFilled still both_pending 5 0 0 (7 ∷ [])
      (omega arith) (omega arith) (λ k below. absurd (omega arith)) exit_pending exit_word 3
      (omega arith) deposit_pending still 100 0 deposit_message to_server same_message
