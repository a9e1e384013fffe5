-- ===== src/Opteron/Agree.antt =====
-- The port for Opteron against the generic port: the same results where the prefetches stay inside the
-- arrays of pointers, and a read past the array where they do not.
use ssmp.Base.{
  ℕ, suc, ◌+◌, ◌%◌, ◌^◌, ◌<◌, ◌≤◌, ◌≡◌, ◌≢◌, arith, Bool, length, Option-cases, inl, inr,
  get_elem?-some,
}
use ssmp.Message.{Slots, ssmp_buf_messg, state, acquire}
use ssmp.Message.Laws.{acquire_total}
use ssmp.ColorBuf.{ColorBuf, IsFilled}
use ssmp.Poll.{Env, bad}
use ssmp.Poll.Scan.{scan_cong, Probe-cases}
use ssmp.Generic
use ssmp.Generic.{advance_start}
use ssmp.Opteron.{
  prefetch, recv_probe, recv, prefetch_entry, collect, take_entry, color_probe, recv_color,
  start_probe, recv_color_start,
}

module _ (atomic : Bool) (rooms id : ℕ) where
  recv_probe-Generic :
      (i : ℕ) (s : Slots)
      → i < rooms
      → (i ≢ id → i + 1 < rooms)
      → recv_probe atomic rooms id i s ≡ Generic.recv_probe atomic id i s
  unfolding recv_probe Generic.recv_probe prefetch
  recv_probe-Generic i s lt next = elim (Option-cases (acquire atomic s i ssmp_buf_messg)) [
    | inl e ↦ ground (arith, e)
    | inr (t, e) ↦ ground (arith, e)
  ]

  -- On Opteron, if `ssmp_recv_buf` has more pointers than there are processes, or just as many
  -- and the caller is the last process, `ssmp_recv` returns what it returns in the generic port.
  pub recv-Generic :
      (env : Env Slots) (num_ues fuel : ℕ) (s : Slots)
      → num_ues ≤ rooms
      → (num_ues ≡ rooms → id + 1 ≡ num_ues)
      → recv atomic rooms id env num_ues fuel s ≡ Generic.recv atomic id env num_ues fuel s
  unfolding recv Generic.recv
  recv-Generic env num_ues fuel s room or_last =
      scan_cong env num_ues (recv_probe atomic rooms id) (Generic.recv_probe atomic id)
        (λ i s' lt. recv_probe-Generic i s' (omega arith) (λ ne. grind (arith, or_last))) fuel 0 0 s

-- On Opteron, if `ssmp_recv_buf` has just as many pointers as there are processes, the round of
-- `ssmp_recv` that finds a message from the last process, if that is not the caller, reads past
-- `ssmp_recv_buf`.
pub recv_probe_last :
    (atomic : Bool) (id last : ℕ) (s : Slots)
    → last ≢ id
    → state (s last) ≡ ssmp_buf_messg
    → recv_probe atomic (suc last) id last s ≡ bad
unfolding recv_probe prefetch
recv_probe_last atomic id last s ne e =
    let (t, got) = acquire_total atomic s last ssmp_buf_messg e in ground (arith, got)

module _ (atomic : Bool) (rooms : ℕ) (cbuf : ColorBuf) (peer : ℕ → ℕ) (filled : IsFilled cbuf peer)
    (near : (i : ℕ) → i < cbuf.num_ues → peer i % 2 ^ 8 < rooms) where
  take_entry-Generic :
      (i : ℕ) (s : Slots)
      → i < cbuf.num_ues
      → take_entry atomic rooms cbuf i s ≡ Generic.color_probe atomic cbuf i s
  unfolding take_entry collect prefetch prefetch_entry Generic.color_probe Generic.collect
  take_entry-Generic i s lt = elim (Option-cases (acquire atomic s (peer i) ssmp_buf_messg)) [
    | inl e ↦ ground (arith, e, filled.bufs i lt, filled.states i lt)
    | inr (t, e) ↦
        ground (arith, e, filled.bufs i lt, filled.states i lt, filled.froms i lt, near i lt)
  ]

  color_probe-Generic :
      (i : ℕ) (s : Slots)
      → i < cbuf.num_ues
      → i + 1 < length cbuf.buf
      → color_probe atomic rooms cbuf i s ≡ Generic.color_probe atomic cbuf i s
  unfolding color_probe prefetch_entry
  color_probe-Generic i s lt room =
      let (p, next) = get_elem?-some cbuf.buf (i + 1) room in
      elim (Probe-cases (Generic.color_probe atomic cbuf i s)) [
        | inl (r, e) ↦ ground (arith, e, take_entry-Generic i s lt, next)
        | inr (inl e) ↦ ground (arith, e, take_entry-Generic i s lt)
        | inr (inr e) ↦ ground (arith, e, take_entry-Generic i s lt)
      ]

  -- On Opteron, over a filled color buffer of processes that `ssmp_send_buf` has pointers for,
  -- whose array of buffers has a spare entry, `ssmp_recv_color` returns what it returns in the
  -- generic port.
  pub recv_color-Generic_spare :
      (env : Env Slots) (fuel : ℕ) (s : Slots)
      → cbuf.num_ues < length cbuf.buf
      → recv_color atomic rooms env cbuf fuel s ≡ Generic.recv_color atomic env cbuf fuel s
  unfolding recv_color Generic.recv_color
  recv_color-Generic_spare env fuel s room =
      scan_cong env cbuf.num_ues (color_probe atomic rooms cbuf) (Generic.color_probe atomic cbuf)
        (λ i s' lt. color_probe-Generic i s' lt (omega arith)) fuel 0 0 s

  start_probe-Generic :
      (i : ℕ) (s : Slots)
      → i < cbuf.num_ues
      → start_probe atomic rooms cbuf i s ≡ Generic.start_probe atomic cbuf i s
  unfolding start_probe prefetch_entry Generic.start_probe advance_start
  start_probe-Generic i s lt = elim (Probe-cases (Generic.color_probe atomic cbuf i s)) [
    | inl (r, e) ↦ ground (arith, e, take_entry-Generic i s lt, filled.bufs 0, filled.bufs (i + 1))
    | inr (inl e) ↦ ground (arith, e, take_entry-Generic i s lt)
    | inr (inr e) ↦ ground (arith, e, take_entry-Generic i s lt)
  ]

  -- On Opteron, over a filled color buffer of processes that `ssmp_send_buf` has pointers for,
  -- `ssmp_recv_color_start` returns what it returns in the generic port, with or without a spare
  -- entry: it prefetches the buffer where the next scan starts.
  pub recv_color_start-Generic :
      (env : Env Slots) (fuel start : ℕ) (s : Slots)
      → recv_color_start atomic rooms env cbuf fuel start s
        ≡ Generic.recv_color_start atomic env cbuf fuel start s
  unfolding recv_color_start Generic.recv_color_start
  recv_color_start-Generic env fuel start s =
      scan_cong env cbuf.num_ues (start_probe atomic rooms cbuf) (Generic.start_probe atomic cbuf)
        start_probe-Generic fuel 0 start s
