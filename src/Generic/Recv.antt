-- ===== src/Generic/Recv.antt =====
-- Receiving from any process and from one: what the functions of src/platform/generic return.
use ssmp.Base.{ℕ, suc, ◌<◌, ◌≤◌, ◌+◌, ◌^◌, ◌≡◌, ◌≢◌, Bool, arith, Option-cases, inl, inr, subst₂}
use ssmp.Base.Outcome.{done}
use ssmp.Message.{Msg, Slots, ssmp_buf_messg, state, set_sender, acquire, release}
use ssmp.Message.Laws.{Received, Acquired-Received, acquire_sound, acquire_total}
use ssmp.Poll.{Env, hit, bad, memory}
use ssmp.Poll.Scan.{scan_sound, scan_total}
use ssmp.Generic.{recv_probe, recv}

module _ (atomic : Bool) (id : ℕ) where
  recv_probe_hit :
      (i : ℕ) (s : Slots) {m : Msg} {s' : Slots}
      → i < 2 ^ 32
      → recv_probe atomic id i s ≡ hit (m, s')
      → (i ≢ id) × Received s i i m s'
  unfolding recv_probe
  recv_probe_hit i s {m} {s'} small h = elim (Option-cases (acquire atomic s i ssmp_buf_messg)) [
    | inl none_left ↦ absurd (ground arith)
    | inr (t, e) ↦
        let r = Acquired-Received i (acquire_sound atomic s i ssmp_buf_messg e) small in
        let same_msg : set_sender i (t i) ≡ m = ground arith in
        let same_slots : release t i ≡ s' = ground arith in
        (ground arith, subst₂ (Received s i i) same_msg same_slots r)
  ]

  recv_probe-ne-bad : (i : ℕ) (s : Slots) → recv_probe atomic id i s ≢ bad
  unfolding recv_probe
  recv_probe-ne-bad i s h = elim (Option-cases (acquire atomic s i ssmp_buf_messg)) [
    | inl e ↦ ground arith
    | inr (t, e) ↦ ground arith
  ]

  recv_probe_total :
      (i : ℕ) (s : Slots)
      → i ≢ id
      → state (s i) ≡ ssmp_buf_messg
      → (r : Msg × Slots) × (recv_probe atomic id i s ≡ hit r)
  unfolding recv_probe
  recv_probe_total i s ne e =
      let (t, got) = acquire_total atomic s i ssmp_buf_messg e in
      ((set_sender i (t i), release t i), ground arith)

  module _ (env : Env Slots) (s₀ : Slots) (n fuel : ℕ) (small : n ≤ 2 ^ 32) where
    -- For up to 2 ^ 32 processes, a message that `ssmp_recv` returns is one that another process
    -- `from` had sent: it was pending in the buffer from `from` at some look, and has its words
    -- and `from` as its sender; that buffer is empty afterwards and the others are as they were.
    pub recv_sound :
        {m : Msg} {s' : Slots}
        → recv atomic id env n fuel s₀ ≡ done (m, s')
        → (u from : ℕ) × (from < n) × (from ≢ id) × Received (memory env s₀ (suc u)) from from m s'
    unfolding recv memory
    recv_sound h =
        let (u, j, lt, found) = scan_sound env s₀ n (recv_probe atomic id) fuel 0 0 h in
        let (ne, r) = recv_probe_hit j (memory env s₀ (suc u)) (omega arith) found in
        (u, j, lt, ne, r)

    -- While another process has a message pending at every look, `ssmp_recv` returns, if the fuel
    -- is more than twice the number of processes.
    pub recv_total :
        (j : ℕ)
        → j < n
        → j ≢ id
        → n + n < fuel
        → ((u : ℕ) → state (memory env s₀ (suc u) j) ≡ ssmp_buf_messg)
        → (r : Msg × Slots) × (recv atomic id env n fuel s₀ ≡ done r)
    unfolding recv memory
    recv_total j lt ne enough there =
        let (r, u, k, ltk, w, found, ret) =
          scan_total env s₀ n (recv_probe atomic id) (λ i s _. recv_probe-ne-bad i s) j lt
            (λ u. recv_probe_total j (memory env s₀ (suc u)) ne (there u)) fuel 0 0 (omega arith)
            enough in
        (r, ret)

    -- For up to 2 ^ 32 processes: while another process `j` has a message pending at every look and the
    -- fuel is more than twice the number of processes, `ssmp_recv` returns a message that another
    -- process `from` had sent: it was pending in the buffer from `from` at some look, and has its words
    -- and `from` as its sender; that buffer is empty afterwards and the others are as they were.
    pub recv_lem :
        (j : ℕ)
        → j < n
        → j ≢ id
        → n + n < fuel
        → ((u : ℕ) → state (memory env s₀ (suc u) j) ≡ ssmp_buf_messg)
        → (m : Msg) × (s' : Slots) × (recv atomic id env n fuel s₀ ≡ done (m, s'))
          × (u from : ℕ) × (from < n)
          × (from ≢ id)
          × Received (memory env s₀ (suc u)) from from m s'
    recv_lem j lt ne enough there =
        let ((m, s'), ret) = recv_total j lt ne enough there in
        let (u, from, lt', ne', r) = recv_sound ret in (m, s', ret, u, from, lt', ne', r)
