-- ===== src/Broadcast.antt =====
-- src/ssmp_broadcast.c: sending a message to every other process.
use ssmp.Base.{
  ℕ, zero, suc, ◌+◌, ◌≤◌, ◌<◌, ◌≡◌, ◌≢◌, ◌⊎◌, inl, refl, arith, Bool, true, false, ◌==◌, ℕ_discrete,
  ◌∙◌, subst,
}
use ssmp.Base.Family.{update, update_self, update_ne}
use ssmp.Base.Outcome.{Outcome, done, ◌>>=◌}
use ssmp.Message.{Msg, Slots, state, set_state, ssmp_buf_messg, ssmp_buf_empty}
use ssmp.Message.Laws.{set_state-set_state}
use ssmp.Generic
use ssmp.Generic.Direct.{send-send_no_sync}

-- `send` is `ssmp_send`, and `id` is `ssmp_id_`.
module _ (send : ℕ → Msg → Slots → Outcome (Msg × Slots)) (id : ℕ) where
  -- the loop over `core`, with `k` rounds left
  unfoldable pub broadcast_loop : ℕ → ℕ → Msg → Slots → Outcome (Msg × Slots)
  broadcast_loop zero core msg s = done (msg, s)
  broadcast_loop (suc k) core msg s = elim (core == id) [
    | true ↦ broadcast_loop k (core + 1) msg s
    | false ↦ send core msg s >>= λ r. broadcast_loop k (core + 1) r.0 r.1
  ]

  -- `ssmp_broadcast`
  unfoldable pub broadcast : ℕ → Msg → Slots → Outcome (Msg × Slots)
  unfolding broadcast_loop
  broadcast num_ues msg s = broadcast_loop num_ues 0 msg s

module _ (atomic : Bool) (fuel id : ℕ) where
  -- `ssmp_send` of the generic port, with nobody else at work
  abbrev pub sends : ℕ → Msg → Slots → Outcome (Msg × Slots)
  sends to msg s = Generic.send atomic (λ _ t. t) (suc fuel) to msg s

  -- What the loop leaves when it starts with the message `msg` and the buffers `s`.
  abbrev Arrived : ℕ → ℕ → Msg → Slots → Slots → Type 0
  Arrived core k msg s t =
      ((i : ℕ) → core ≤ i → i < core + k → i ≢ id → t i ≡ set_state ssmp_buf_messg msg)
      × ((i : ℕ) → (i < core) ⊎ (core + k ≤ i) ⊎ (i ≡ id) → t i ≡ s i)

  loop_skip :
      (k core : ℕ) (msg : Msg) (s : Slots)
      → core ≡ id
      → broadcast_loop sends id (suc k) core msg s ≡ broadcast_loop sends id k (core + 1) msg s
  unfolding broadcast_loop
  loop_skip k core msg s e = ground (arith, e)

  loop_send :
      (k core : ℕ) (msg : Msg) (s : Slots)
      → core ≢ id
      → state (s core) ≡ ssmp_buf_empty
      → broadcast_loop sends id (suc k) core msg s
        ≡ broadcast_loop sends id k
            (core + 1)
            (set_state ssmp_buf_messg msg)
            (update s core (set_state ssmp_buf_messg msg))
  unfolding broadcast_loop Generic.send_is_free Generic.send_no_sync
  loop_send k core msg s ne e = ground (arith, send-send_no_sync atomic fuel core msg s, e)

  loop_lem :
      (k core : ℕ) (msg : Msg) (s : Slots)
      → ((i : ℕ) → core ≤ i → i < core + k → i ≢ id → state (s i) ≡ ssmp_buf_empty)
      → (m : Msg) × (t : Slots) × (broadcast_loop sends id k core msg s ≡ done (m, t))
        × Arrived core k msg s t
  unfolding broadcast_loop
  loop_lem zero core msg s free =
      (msg, s, refl, (λ i lo hi ne. absurd (omega arith), λ i out. refl))
  loop_lem (suc k) core msg s free = elim (ℕ_discrete core id) [
    | yes e ↦
        let (m, t, ret, (new, old)) =
          loop_lem k (core + 1) msg s (λ i lo hi ne. free i (omega arith) (omega arith) ne) in
        (
          m,
          t,
          loop_skip k core msg s e ∙ ret,
          (λ i lo hi ne. new i (omega arith) (omega arith) ne, λ i out. old i (omega arith)),
        )
    | no ne ↦
        let msg' : Msg = set_state ssmp_buf_messg msg in
        let s' : Slots = update s core msg' in
        let (m, t, ret, (new, old)) =
          loop_lem k (core + 1) msg' s'
            (λ i lo hi ni. ground (arith, free i, update_ne s core i msg')) in
        (
          m,
          t,
          loop_send k core msg s ne (free core (omega arith) (omega arith) ne) ∙ ret,
          (
            λ i lo hi ni. elim (ℕ_discrete core i) [
              | yes e ↦
                  subst (λ q. t q ≡ msg') e (old core (inl (omega arith)) ∙ update_self s core msg')
              | no later ↦
                  new i (omega arith) (omega arith) ni
                  ∙ set_state-set_state ssmp_buf_messg ssmp_buf_messg msg
            ],
            λ i out. old i (omega arith) ∙ update_ne s core i msg' (omega arith),
          ),
        )
  ]

  -- With the generic port, if the buffers to the other processes are empty and nobody else is at
  -- work, `ssmp_broadcast` returns, the message is pending in each of these buffers, and no other
  -- buffer has changed.
  pub broadcast_lem :
      (num_ues : ℕ) (msg : Msg) (s : Slots)
      → ((i : ℕ) → i < num_ues → i ≢ id → state (s i) ≡ ssmp_buf_empty)
      → (m : Msg) × (t : Slots) × (broadcast sends id num_ues msg s ≡ done (m, t))
        × ((i : ℕ) → i < num_ues → i ≢ id → t i ≡ set_state ssmp_buf_messg msg)
        × ((i : ℕ) → (num_ues ≤ i) ⊎ (i ≡ id) → t i ≡ s i)
  unfolding broadcast
  broadcast_lem num_ues msg s free =
      let (m, t, ret, (new, old)) =
        loop_lem num_ues 0 msg s (λ i lo hi ne. free i (omega arith) ne) in
      (m, t, ret, λ i lt ne. new i (omega arith) (omega arith) ne, λ i out. old i (omega arith))
