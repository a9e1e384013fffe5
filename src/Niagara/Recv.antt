-- ===== src/Niagara/Recv.antt =====
-- What the port for SPARC sends and receives.
use ssmp.Base.{ℕ, suc, ◌+◌, ◌%◌, ◌^◌, ◌<◌, ◌≡◌, ◌≢◌, refl, arith, ℕ_discrete, subst, sym}
use ssmp.Base.Family.{update, update_self, update_ne}
use ssmp.Base.Outcome.{done}
use ssmp.Message.{ssmp_buf_empty, ssmp_buf_messg}
use ssmp.ColorBuf.{ColorBuf, IsFilled}
use ssmp.Poll.{Env, hit, miss, bad, memory, await}
use ssmp.Poll.Scan.{scan_sound, scan_total}
use ssmp.Generic.{advance_start}
use ssmp.Niagara.{
  ShortMsg, ShortSlots, memcpy64, set_tag, empty_slot, has_state, recv_from, color_probe,
  start_probe, recv_color_start, send,
}

-- The two double words of `m` are those of buffer `p`, which is empty afterwards; the other buffers are
-- as they were.
pub record Taken (s : ShortSlots) (p : ℕ) (m : ShortMsg) (s' : ShortSlots) : Type 0 where
  pub was : (s p).tag ≡ ssmp_buf_messg
  pub low_copied : m.low ≡ (s p).low
  pub high_copied : m.high ≡ (s p).high
  pub emptied : (s' p).tag ≡ ssmp_buf_empty
  pub others : (j : ℕ) → p ≢ j → s' j ≡ s j

Taken-copy :
    (s : ShortSlots) (p : ℕ) (msg : ShortMsg) (v : ℕ)
    → (s p).tag ≡ ssmp_buf_messg
    → Taken s p (set_tag v (memcpy64 msg (s p))) (empty_slot s p)
unfolding set_tag memcpy64 empty_slot
Taken-copy s p msg v e = record {
  was = e;
  low_copied = refl;
  high_copied = refl;
  emptied = rw (update_self s p (set_tag ssmp_buf_empty (s p))) refl;
  others = λ j ne. update_ne s p j _ ne;
}

module _ (cbuf : ColorBuf) (peer : ℕ → ℕ) (filled : IsFilled cbuf peer) (msg : ShortMsg) where
  abbrev found : ℕ → ShortSlots → ShortMsg × ShortSlots × ℕ
  found i s = (
    set_tag (peer i % 2 ^ 8) (memcpy64 msg (s (peer i))),
    empty_slot s (peer i),
    advance_start cbuf.num_ues i,
  )

  start_probe_total :
      (i : ℕ) (s : ShortSlots)
      → i < cbuf.num_ues
      → (s (peer i)).tag ≡ ssmp_buf_messg
      → start_probe cbuf msg i s ≡ hit (found i s)
  unfolding start_probe color_probe has_state
  start_probe_total i s lt e =
      ground (arith, filled.states i lt, filled.bufs i lt, filled.froms i lt)

  start_probe_miss :
      (i : ℕ) (s : ShortSlots)
      → i < cbuf.num_ues
      → (s (peer i)).tag ≢ ssmp_buf_messg
      → start_probe cbuf msg i s ≡ miss
  unfolding start_probe color_probe has_state
  start_probe_miss i s lt ne = ground (arith, filled.states i lt)

  start_probe-ne-bad : (i : ℕ) (s : ShortSlots) → i < cbuf.num_ues → start_probe cbuf msg i s ≢ bad
  start_probe-ne-bad i s lt h = elim (ℕ_discrete (s (peer i)).tag 1) [
    | yes e ↦ cc (h, start_probe_total i s lt e)
    | no ne ↦ cc (h, start_probe_miss i s lt ne)
  ]

  start_probe_hit :
      (i : ℕ) (s : ShortSlots) {r : ShortMsg × ShortSlots × ℕ}
      → i < cbuf.num_ues
      → start_probe cbuf msg i s ≡ hit r
      → ((s (peer i)).tag ≡ ssmp_buf_messg) × (r ≡ found i s)
  start_probe_hit i s {r} lt h = elim (ℕ_discrete (s (peer i)).tag 1) [
    | yes e ↦ (e, cc (h, start_probe_total i s lt e))
    | no ne ↦ absurd (cc (h, start_probe_miss i s lt ne))
  ]

  abbrev Collected : ℕ → ShortSlots → ShortMsg × ShortSlots × ℕ → Type 0
  Collected k s r =
      Taken s (peer k) r.0 r.1 × (r.0.tag ≡ peer k % 2 ^ 8) × (r.2 ≡ advance_start cbuf.num_ues k)

  found-Collected :
      (k : ℕ) (s : ShortSlots) → (s (peer k)).tag ≡ ssmp_buf_messg → Collected k s (found k s)
  unfolding set_tag
  found-Collected k s e = (Taken-copy s (peer k) msg (peer k % 2 ^ 8) e, omega arith, refl)

  module _ (env : Env ShortSlots) (s₀ : ShortSlots) (fuel : ℕ) where
    -- Over a filled color buffer, what `ssmp_recv_color_start` of the port for Niagara returns
    -- was pending at some look in the buffer of some entry `k`: it has the two double words of
    -- that message and the id of the entry, as a byte, as its sender; that buffer is empty
    -- afterwards, the others are as they were, and the next call starts behind `k`.
    pub start_sound :
        (start : ℕ) {m : ShortMsg} {s' : ShortSlots} {next : ℕ}
        → recv_color_start env cbuf fuel start msg s₀ ≡ done (m, s', next)
        → (u k : ℕ) × (k < cbuf.num_ues)
          × Taken (memory env s₀ (suc u)) (peer k) m s'
          × (m.tag ≡ peer k % 2 ^ 8)
          × (next ≡ advance_start cbuf.num_ues k)
    unfolding recv_color_start memory
    start_sound start {m} {s'} {next} h =
        let (u, k, lt, r) = scan_sound env s₀ cbuf.num_ues (start_probe cbuf msg) fuel 0 start h in
        let s : ShortSlots = memory env s₀ (suc u) in
        let (e, same) = start_probe_hit k s lt r in
        let c : Collected k s (m, s', next) =
          subst (Collected k s) (sym same) (found-Collected k s e) in
        (u, k, lt, c.0, c.1, c.2)

    -- While the process of some entry has a message pending, `ssmp_recv_color_start` returns within two
    -- rounds.
    pub start_total :
        (start j : ℕ)
        → start < cbuf.num_ues
        → j < cbuf.num_ues
        → cbuf.num_ues + cbuf.num_ues < fuel
        → ((u : ℕ) → (memory env s₀ (suc u) (peer j)).tag ≡ ssmp_buf_messg)
        → (r : ShortMsg × ShortSlots × ℕ) × (recv_color_start env cbuf fuel start msg s₀ ≡ done r)
    unfolding recv_color_start memory
    start_total start j ls lj enough there =
        let (r, u, k, ltk, w, got, ret) =
          scan_total env s₀ cbuf.num_ues (start_probe cbuf msg) start_probe-ne-bad j lj
            (λ u. (
              found j (memory env s₀ (suc u)),
              start_probe_total j (memory env s₀ (suc u)) lj (there u),
            ))
            fuel 0 start (omega arith) enough in
        (r, ret)

abbrev pub alone : Env ShortSlots
alone _ s = s

sent_in : ℕ → ShortMsg → ShortSlots → ShortSlots
sent_in p msg s = update s p (set_tag ssmp_buf_messg (memcpy64 (s p) msg))

send_at_once :
    (fuel p : ℕ) (msg : ShortMsg) (s : ShortSlots)
    → (s p).tag ≡ ssmp_buf_empty
    → send alone (suc fuel) p msg s ≡ done (sent_in p msg s)
unfolding send await has_state sent_in
send_at_once fuel p msg s e = ground (arith, e)

recv_at_once :
    (fuel p : ℕ) (mine : ShortMsg) (s : ShortSlots)
    → (s p).tag ≡ ssmp_buf_messg
    → recv_from alone (suc fuel) p mine s ≡ done (memcpy64 mine (s p), empty_slot s p)
unfolding recv_from await has_state
recv_at_once fuel p mine s e = ground (arith, e)

sent_in_at :
    (p : ℕ) (msg : ShortMsg) (s : ShortSlots)
    → sent_in p msg s p ≡ set_tag ssmp_buf_messg (memcpy64 (s p) msg)
unfolding sent_in
sent_in_at p msg s = update_self s p (set_tag ssmp_buf_messg (memcpy64 (s p) msg))

module _ (p : ℕ) (msg : ShortMsg) (s : ShortSlots) where
  tag_sent : (sent_in p msg s p).tag ≡ ssmp_buf_messg
  unfolding set_tag
  tag_sent = rw (sent_in_at p msg s) refl

  low_sent : (sent_in p msg s p).low ≡ msg.low
  unfolding set_tag memcpy64
  low_sent = rw (sent_in_at p msg s) refl

  high_sent : (sent_in p msg s p).high ≡ msg.high
  unfolding set_tag memcpy64
  high_sent = rw (sent_in_at p msg s) refl

-- On Niagara, if the buffer is empty and nobody else is at work, `ssmp_send` returns,
-- `ssmp_recv_from` after it returns both double words of the message that was sent, and the
-- buffer is empty again.
pub recv_from-send :
    (fuel p : ℕ) (msg mine : ShortMsg) (s : ShortSlots)
    → (s p).tag ≡ ssmp_buf_empty
    → (sent after : ShortSlots) × (m : ShortMsg) × (send alone (suc fuel) p msg s ≡ done sent)
      × (recv_from alone (suc fuel) p mine sent ≡ done (m, after))
      × (m.low ≡ msg.low)
      × (m.high ≡ msg.high)
      × ((after p).tag ≡ ssmp_buf_empty)
unfolding memcpy64
recv_from-send fuel p msg mine s e =
    let pending : (sent_in p msg s p).tag ≡ ssmp_buf_messg = tag_sent p msg s in
    (
      sent_in p msg s,
      empty_slot (sent_in p msg s) p,
      memcpy64 mine (sent_in p msg s p),
      send_at_once fuel p msg s e,
      recv_at_once fuel p mine (sent_in p msg s) pending,
      low_sent p msg s,
      high_sent p msg s,
      (Taken-copy (sent_in p msg s) p mine 0 pending).emptied,
    )
