-- ===== src/Generic/Alone.antt =====
-- Calls of the generic port that nobody disturbs.
use ssmp.Base.{ℕ, zero, suc, ◌≡◌, refl, arith, subst, Bool}
use ssmp.Base.Outcome.{done}
use ssmp.Message.{Msg, Slots, ssmp_buf_empty, ssmp_buf_messg, state}
use ssmp.Message.Laws.{Sent, Taken}
use ssmp.Poll.{Env, memory}
use ssmp.Generic.{send, recv_from}
use ssmp.Generic.Direct.{send_sound, send_total, recv_from_sound, recv_from_total}

abbrev pub quiet : Env Slots
quiet t s = s

memory_quiet : (s : Slots) (t : ℕ) → memory quiet s t ≡ s
unfolding memory
memory_quiet s zero = refl
memory_quiet s (suc t) = memory_quiet s t

module _ (atomic : Bool) (fuel : ℕ) (s : Slots) where
  -- A call of the sender that nobody disturbs.
  pub send_alone :
      (to : ℕ) (msg : Msg)
      → state (s to) ≡ ssmp_buf_empty
      → (m : Msg) × (s' : Slots) × (send atomic quiet (suc fuel) to msg s ≡ done (m, s'))
        × Sent s to msg s'
  send_alone to msg free =
      let same : (t : ℕ) → memory quiet s t ≡ s = memory_quiet s in
      let ((m, s'), ret) =
        send_total atomic quiet s (suc fuel) to msg 0 (omega arith) (rw (same 1) free) in
      let (u, ok) = send_sound atomic quiet s (suc fuel) to msg ret in
      (m, s', ret, subst (λ s₁. Sent s₁ to msg s') (same (suc u)) ok)

  -- A call of the receiver that nobody disturbs.
  pub recv_from_alone :
      (from : ℕ)
      → state (s from) ≡ ssmp_buf_messg
      → (m : Msg) × (s' : Slots) × (recv_from atomic quiet (suc fuel) from s ≡ done (m, s'))
        × Taken s from m s'
  recv_from_alone from full =
      let same : (t : ℕ) → memory quiet s t ≡ s = memory_quiet s in
      let ((m, s'), ret) =
        recv_from_total atomic quiet s (suc fuel) from 0 (omega arith) (rw (same 1) full) in
      let (u, ok) = recv_from_sound atomic quiet s (suc fuel) from ret in
      (m, s', ret, subst (λ s₁. Taken s₁ from m s') (same (suc u)) ok)
