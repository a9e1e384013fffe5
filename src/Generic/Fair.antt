-- ===== src/Generic/Fair.antt =====
-- Receiving from the processes of a color: src/platform/generic, where `ssmp_recv_color_start` goes
-- round the buffers from one call to the next.
use ssmp.Base.{
  ℕ, suc, ◌<◌, ◌%◌, ◌-◌, ◌+◌, ◌^◌, ◌≡◌, ◌≢◌, ◌⊎◌, Bool, none, some, arith, ℕ_discrete,
  if◌then◌else◌, leb, Option-cases, inl, inr, subst₂,
}
use ssmp.Base.Outcome.{done}
use ssmp.Message.{Msg, Slots, ssmp_buf_messg, state, set_sender, acquire, release}
use ssmp.Message.Laws.{Received, Acquired-Received, acquire_sound, acquire_total}
use ssmp.ColorBuf.{ColorBuf, IsFilled}
use ssmp.Poll.{Env, hit, miss, bad, memory}
use ssmp.Poll.Scan.{scan_sound, scan_total, Before, Probe-cases}
use ssmp.Generic.{collect, color_probe, recv_color, advance_start, start_probe, recv_color_start}

module _ (atomic : Bool) (cbuf : ColorBuf) (peer : ℕ → ℕ) (filled : IsFilled cbuf peer) where
  module _ (i : ℕ) (s : Slots) (lt : i < cbuf.num_ues) where
    pub color_probe-none :
        acquire atomic s (peer i) ssmp_buf_messg ≡ none → color_probe atomic cbuf i s ≡ miss
    unfolding color_probe
    color_probe-none e = ground (arith, filled.states i lt)

    color_probe-some :
        {t : Slots}
        → acquire atomic s (peer i) ssmp_buf_messg ≡ some t
        → color_probe atomic cbuf i s
          ≡ hit (set_sender (peer i % 2 ^ 8) (t (peer i)), release t (peer i))
    unfolding color_probe collect
    color_probe-some e = ground (arith, filled.states i lt, filled.bufs i lt, filled.froms i lt)

    color_probe_hit :
        {m : Msg} {s' : Slots}
        → color_probe atomic cbuf i s ≡ hit (m, s')
        → Received s (peer i) (peer i % 2 ^ 8) m s'
    color_probe_hit {m} {s'} h = elim (Option-cases (acquire atomic s (peer i) ssmp_buf_messg)) [
      | inl e ↦ absurd (cc (color_probe-none e))
      | inr (t, e) ↦
          let r =
            Acquired-Received (peer i % 2 ^ 8) (acquire_sound atomic s (peer i) ssmp_buf_messg e)
              (omega arith) in
          let same_msg : set_sender (peer i % 2 ^ 8) (t (peer i)) ≡ m = cc (color_probe-some e) in
          let same_slots : release t (peer i) ≡ s' = cc (color_probe-some e) in
          subst₂ (Received s (peer i) (peer i % 2 ^ 8)) same_msg same_slots r
    ]

    color_probe-ne-bad : color_probe atomic cbuf i s ≢ bad
    color_probe-ne-bad h = elim (Option-cases (acquire atomic s (peer i) ssmp_buf_messg)) [
      | inl e ↦ cc (color_probe-none e)
      | inr (t, e) ↦ cc (color_probe-some e)
    ]

    color_probe_total :
        state (s (peer i)) ≡ ssmp_buf_messg
        → (r : Msg × Slots) × (color_probe atomic cbuf i s ≡ hit r)
    color_probe_total e =
        let (t, got) = acquire_total atomic s (peer i) ssmp_buf_messg e in
        ((set_sender (peer i % 2 ^ 8) (t (peer i)), release t (peer i)), color_probe-some got)

    pub start_probe_hit :
        {m : Msg} {s' : Slots} {next : ℕ}
        → start_probe atomic cbuf i s ≡ hit (m, s', next)
        → Received s (peer i) (peer i % 2 ^ 8) m s' × (next ≡ advance_start cbuf.num_ues i)
    unfolding start_probe
    start_probe_hit {m} {s'} {next} h = elim (Probe-cases (color_probe atomic cbuf i s)) [
      | inl ((m', t), e) ↦
          let same : color_probe atomic cbuf i s ≡ hit (m, s') = ground arith in
          (color_probe_hit same, ground arith)
      | inr (inl e) ↦ absurd (ground arith)
      | inr (inr e) ↦ absurd (ground arith)
    ]

    start_probe-ne-bad : start_probe atomic cbuf i s ≢ bad
    unfolding start_probe
    start_probe-ne-bad h = elim (Probe-cases (color_probe atomic cbuf i s)) [
      | inl ((m', t), e) ↦ ground arith
      | inr (inl e) ↦ ground arith
      | inr (inr e) ↦ color_probe-ne-bad e
    ]

    pub start_probe_total :
        state (s (peer i)) ≡ ssmp_buf_messg
        → (r : Msg × Slots × ℕ) × (start_probe atomic cbuf i s ≡ hit r)
    unfolding start_probe
    start_probe_total e =
        let ((m, t), got) = color_probe_total e in
        ((m, t, advance_start cbuf.num_ues i), ground arith)

-- how many buffers a scan that starts at `start` looks at before the one at `j`
abbrev pub distance : ℕ → ℕ → ℕ → ℕ
distance n start j = if leb start j then j - start else n + j - start

-- Serving `k` on the way from `start` to `j` brings the next scan nearer to `j`.
distance-advance_start :
    (n start k j : ℕ)
    → start < n
    → k < n
    → j < n
    → Before start k j
    → k ≢ j
    → (advance_start n k < n) × (distance n (advance_start n k) j < distance n start j)
unfolding advance_start
distance-advance_start n start k j ls lk lj b ne = ground arith

advance_start-lt : (n k : ℕ) → k < n → advance_start n k < n
unfolding advance_start
advance_start-lt n k lt = ground arith

module _ (atomic : Bool) (cbuf : ColorBuf) (peer : ℕ → ℕ) (filled : IsFilled cbuf peer)
    (env : Env Slots) (s₀ : Slots) (fuel : ℕ) where
  abbrev n : ℕ
  n = cbuf.num_ues

  -- Over a filled color buffer, a message that `ssmp_recv_color` returns was pending at some look
  -- in the buffer of some entry `k`: it has the words of that message and the id of the entry, as
  -- a byte, as its sender; that buffer is empty afterwards and the others are as they were.
  pub recv_color_sound :
      {m : Msg} {s : Slots}
      → recv_color atomic env cbuf fuel s₀ ≡ done (m, s)
      → (u k : ℕ) × (k < n) × Received (memory env s₀ (suc u)) (peer k) (peer k % 2 ^ 8) m s
  unfolding recv_color memory
  recv_color_sound h =
      let (u, k, lt, found) = scan_sound env s₀ n (color_probe atomic cbuf) fuel 0 0 h in
      (u, k, lt, color_probe_hit atomic cbuf peer filled k (memory env s₀ (suc u)) lt found)

  -- Fairness. Over a filled color buffer, with the start below its size and fuel for more than
  -- twice its size, while the process of entry `j` has a message pending at every look,
  -- `ssmp_recv_color_start` returns the message of some entry, with its sender, and empties only
  -- that buffer; and that entry is `j`, or the next call starts nearer to entry `j`.
  pub recv_color_start_fair :
      (start j : ℕ)
      → start < n
      → j < n
      → n + n < fuel
      → ((u : ℕ) → state (memory env s₀ (suc u) (peer j)) ≡ ssmp_buf_messg)
      → (m : Msg) × (s : Slots) × (next u k : ℕ) × (recv_color_start atomic env cbuf fuel start s₀
          ≡ done (m, s, next))
        × (next < n)
        × Received (memory env s₀ (suc u)) (peer k) (peer k % 2 ^ 8) m s
        × ((k ≡ j) ⊎ (distance n next j < distance n start j))
  unfolding recv_color_start memory
  recv_color_start_fair start j ls lj enough there =
      let ((m, s, next), u, k, lk, w, found, ret) =
        scan_total env s₀ n (start_probe atomic cbuf)
          (λ i s lt. start_probe-ne-bad atomic cbuf peer filled i s lt) j lj
          (λ u. start_probe_total atomic cbuf peer filled j (memory env s₀ (suc u)) lj (there u))
          fuel 0 start (omega arith) enough in
      let (r, e) = start_probe_hit atomic cbuf peer filled k (memory env s₀ (suc u)) lk found in
      (
        m,
        s,
        next,
        u,
        k,
        ret,
        rw e (advance_start-lt n k lk),
        r,
        elim (ℕ_discrete k j) [
          | yes same ↦ inl same
          | no ne ↦ inr (rw e (distance-advance_start n start k j ls lk lj w ne).1)
        ],
      )
