-- ===== src/Generic/Atomic.antt =====
-- USE_ATOMIC of src/include/ssmp.h: whether a buffer is taken by a compare-and-swap or by a load.
use ssmp.Base.{ℕ, ◌<◌, ◌%◌, ◌^◌, ◌≡◌, refl, true, false, arith, ap}
use ssmp.Base.Family.{update, update_self, update-update}
use ssmp.Message.{Slots, ssmp_buf_lockd, set_state, set_sender, acquire, release}
use ssmp.Message.Laws.{set_state-set_state, set_sender-set_state}
use ssmp.ColorBuf.{ColorBuf, IsFilled}
use ssmp.Poll.{Env, hit, miss, bad}
use ssmp.Poll.Scan.{scan_cong}
use ssmp.Generic.{recv_probe, recv, color_probe, recv_color, start_probe, collect, advance_start}

-- the mark that the compare-and-swap leaves
abbrev locked : Slots → ℕ → Slots
locked s p = update s p (set_state ssmp_buf_lockd (s p))

release-locked : (s : Slots) (p : ℕ) → release (locked s p) p ≡ release s p
unfolding release
release-locked s p =
    rw
      (
        update_self s p (set_state ssmp_buf_lockd (s p)),
        update-update s p (set_state ssmp_buf_lockd (s p)),
        set_state-set_state 0 ssmp_buf_lockd (s p),
      )
      refl

sender-locked : (v : ℕ) (s : Slots) (p : ℕ) → set_sender v (locked s p p) ≡ set_sender v (s p)
sender-locked v s p =
    rw (update_self s p (set_state ssmp_buf_lockd (s p)))
      (set_sender-set_state v ssmp_buf_lockd (s p))

pub recv_probe-atomic : (id i : ℕ) (s : Slots) → recv_probe true id i s ≡ recv_probe false id i s
unfolding recv_probe acquire
recv_probe-atomic id i s = ground (arith, release-locked s i, sender-locked i s i)

pub color_probe-atomic :
    (cbuf : ColorBuf) (peer : ℕ → ℕ)
    → IsFilled cbuf peer
    → (i : ℕ) (s : Slots) → i < cbuf.num_ues
    → color_probe true cbuf i s ≡ color_probe false cbuf i s
unfolding color_probe acquire collect
color_probe-atomic cbuf peer filled i s lt = ground (
  arith,
  filled.states i lt,
  filled.bufs i lt,
  filled.froms i lt,
  release-locked s (peer i),
  sender-locked (peer i % 2 ^ 8) s (peer i),
)

pub start_probe-atomic :
    (cbuf : ColorBuf) (peer : ℕ → ℕ)
    → IsFilled cbuf peer
    → (i : ℕ) (s : Slots) → i < cbuf.num_ues
    → start_probe true cbuf i s ≡ start_probe false cbuf i s
unfolding start_probe
start_probe-atomic cbuf peer filled i s lt =
    ap
      (λ p. elim p [
        | hit (m, s') ↦ hit (m, s', advance_start cbuf.num_ues i)
        | miss ↦ miss
        | bad ↦ bad
      ])
      (color_probe-atomic cbuf peer filled i s lt)

-- `ssmp_recv` and the color functions return the same with USE_ATOMIC and without.
pub recv-atomic :
    (id : ℕ) (env : Env Slots) (num_ues fuel : ℕ) (s : Slots)
    → recv true id env num_ues fuel s ≡ recv false id env num_ues fuel s
unfolding recv
recv-atomic id env num_ues fuel s =
    scan_cong env num_ues (recv_probe true id) (recv_probe false id)
      (λ i s' _. recv_probe-atomic id i s') fuel 0 0 s

-- Over a filled color buffer, `ssmp_recv_color` returns the same message and leaves the same
-- buffers with USE_ATOMIC and without.
pub recv_color-atomic :
    (cbuf : ColorBuf) (peer : ℕ → ℕ)
    → IsFilled cbuf peer
    → (env : Env Slots) (fuel : ℕ) (s : Slots)
    → recv_color true env cbuf fuel s ≡ recv_color false env cbuf fuel s
unfolding recv_color
recv_color-atomic cbuf peer filled env fuel s =
    scan_cong env cbuf.num_ues (color_probe true cbuf) (color_probe false cbuf)
      (λ i s' lt. color_probe-atomic cbuf peer filled i s' lt) fuel 0 0 s
