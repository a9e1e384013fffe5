-- ===== src/Generic/Direct.antt =====
-- Sending to a process and receiving from one: src/platform/generic.
use ssmp.Base.{ℕ, suc, ◌<◌, ◌+◌, ◌≡◌, Bool, true, false, arith, subst, subst₂}
use ssmp.Base.Family.{update, update-update}
use ssmp.Base.Outcome.{done, ◌>>=◌, >>=-done}
use ssmp.Message.{
  Msg, Slots, ssmp_buf_empty, ssmp_buf_messg, ssmp_buf_lockd, state, set_state, acquire, release,
}
use ssmp.Message.Laws.{Sent, Taken, Acquired-Sent, Acquired-Taken, acquire_sound, acquire_total}
use ssmp.Poll.{Env, memory, await}
use ssmp.Poll.Await.{await_sound, await_total}
use ssmp.Generic.{recv_from, send, send_is_free, send_no_sync}

module _ (atomic : Bool) (env : Env Slots) (s₀ : Slots) (fuel : ℕ) where
  -- When `ssmp_send` returns, it has found the buffer to `to` empty at some look and has put the
  -- words of the message there with the state SSMP_BUF_MESSG; no other buffer changes.
  pub send_sound :
      (to : ℕ) (msg : Msg) {m : Msg} {s : Slots}
      → send atomic env fuel to msg s₀ ≡ done (m, s)
      → (u : ℕ) × Sent (memory env s₀ (suc u)) to msg s
  unfolding send memory
  send_sound to msg {m} {s} h =
      let (t, found, ret) =
        >>=-done (await env (λ s. acquire atomic s to ssmp_buf_empty) fuel 0 s₀) _ h in
      let (u, e) = await_sound env s₀ (λ s. acquire atomic s to ssmp_buf_empty) fuel 0 found in
      let a = acquire_sound atomic (memory env s₀ (suc u)) to ssmp_buf_empty e in
      let same : update t to (set_state ssmp_buf_messg msg) ≡ s = cc ret in
      (u, subst (Sent (memory env s₀ (suc u)) to msg) same (Acquired-Sent msg a))

  -- If the receiver has emptied the buffer at look `k` and the fuel is more than `k`, `ssmp_send`
  -- returns.
  pub send_total :
      (to : ℕ) (msg : Msg) (k : ℕ)
      → k < fuel
      → state (memory env s₀ (suc k) to) ≡ ssmp_buf_empty
      → (r : Msg × Slots) × (send atomic env fuel to msg s₀ ≡ done r)
  unfolding send memory
  send_total to msg k lt e =
      let (t, got) = acquire_total atomic (memory env s₀ (suc k)) to ssmp_buf_empty e in
      let same : 0 + k ≡ k = omega arith in
      let (t', ret) =
        await_total env s₀ (λ s. acquire atomic s to ssmp_buf_empty) k fuel 0 t lt (rw same got) in
      ((set_state ssmp_buf_messg msg, update t' to (set_state ssmp_buf_messg msg)), rw ret)

  -- When `ssmp_recv_from` returns, it has found a message in the buffer from `from` at some look,
  -- and returns its words; that buffer is empty afterwards and the others are as they were.
  pub recv_from_sound :
      (from : ℕ) {m : Msg} {s : Slots}
      → recv_from atomic env fuel from s₀ ≡ done (m, s)
      → (u : ℕ) × Taken (memory env s₀ (suc u)) from m s
  unfolding recv_from memory
  recv_from_sound from {m} {s} h =
      let (t, found, ret) =
        >>=-done (await env (λ s. acquire atomic s from ssmp_buf_messg) fuel 0 s₀) _ h in
      let (u, e) = await_sound env s₀ (λ s. acquire atomic s from ssmp_buf_messg) fuel 0 found in
      let a = acquire_sound atomic (memory env s₀ (suc u)) from ssmp_buf_messg e in
      let same_msg : t from ≡ m = cc ret in
      let same : release t from ≡ s = cc ret in
      (u, subst₂ (Taken (memory env s₀ (suc u)) from) same_msg same (Acquired-Taken a))

  -- `ssmp_recv_from` returns once the sender has filled the buffer.
  pub recv_from_total :
      (from k : ℕ)
      → k < fuel
      → state (memory env s₀ (suc k) from) ≡ ssmp_buf_messg
      → (r : Msg × Slots) × (recv_from atomic env fuel from s₀ ≡ done r)
  unfolding recv_from memory
  recv_from_total from k lt e =
      let (t, got) = acquire_total atomic (memory env s₀ (suc k)) from ssmp_buf_messg e in
      let same : 0 + k ≡ k = omega arith in
      let (t', ret) =
        await_total env s₀ (λ s. acquire atomic s from ssmp_buf_messg) k fuel 0 t lt
          (rw same got) in
      ((t' from, release t' from), rw ret)

-- If `ssmp_send_is_free` says that the buffer is free and nobody interferes, `ssmp_send` returns
-- at its first look, and does what `ssmp_send_no_sync` does.
pub send-send_no_sync :
    (atomic : Bool) (fuel to : ℕ) (msg : Msg) (s : Slots)
    → send_is_free to s ≡ true
    → send atomic (λ _ t. t) (suc fuel) to msg s ≡ done (send_no_sync to msg s)
unfolding send send_no_sync send_is_free await acquire
send-send_no_sync true fuel to msg s free =
    rw (free, ◌>>=◌)
      (rw (update-update s to (set_state ssmp_buf_lockd (s to)) (set_state ssmp_buf_messg msg)))
send-send_no_sync false fuel to msg s free = rw (free, ◌>>=◌)
