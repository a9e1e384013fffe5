-- ===== src/Generic.antt =====
-- src/platform/generic/ssmp_platf.c: sending and receiving messages of one cache line.
pub mod Recv
pub mod Atomic
pub mod Direct
pub mod Alone
pub mod Fair
mod Tests
use ssmp.Base.{List, ℕ, suc, Bool, Option, none, some, get_elem?, if◌then◌else◌, ◌==◌, ◌+◌}
use ssmp.Base.Family.{update}
use ssmp.Base.Outcome.{Outcome, done, ◌>>=◌}
use ssmp.Message.{
  Msg, Slots, ssmp_buf_empty, ssmp_buf_messg, state, set_state, set_sender, acquire, release,
}
use ssmp.ColorBuf.{ColorBuf}
use ssmp.BigMessage.Calls
use ssmp.BigMessage.Calls.{Chunks}
use ssmp.Poll.{Env, Probe, hit, miss, bad, await, scan}

-- what the color functions do with the buffer at index `i` when its state was the one sought
unfoldable pub collect : ColorBuf → ℕ → Slots → Probe (Msg × Slots)
collect cbuf i s = elim (get_elem? cbuf.buf i) [
  | none ↦ bad
  | some p ↦ elim (get_elem? cbuf.from i) [
    | none ↦ bad
    | some tag ↦ hit (set_sender tag (s p), release s p)
  ]
]

-- `if (++start_recv_from == num_ues) start_recv_from = 0`
unfoldable pub advance_start : ℕ → ℕ → ℕ
advance_start num_ues i = if i + 1 == num_ues then 0 else i + 1

-- `atomic` is USE_ATOMIC.
module _ (atomic : Bool) where
  -- `ssmp_recv_from_platf`: the message, and the buffers afterwards.
  unfoldable pub recv_from : Env Slots → ℕ → ℕ → Slots → Outcome (Msg × Slots)
  recv_from env fuel from slots = do
    s ← await env (λ s. acquire atomic s from ssmp_buf_messg) fuel 0 slots
    done (s from, release s from)

  -- one round of the loop of `ssmp_recv_color_platf`
  unfoldable pub color_probe : ColorBuf → ℕ → Slots → Probe (Msg × Slots)
  color_probe cbuf i s = elim (get_elem? cbuf.buf_state i) [
    | none ↦ bad
    | some p ↦ elim (acquire atomic s p ssmp_buf_messg) [
      | none ↦ miss
      | some s' ↦ collect cbuf i s'
    ]
  ]

  -- `ssmp_recv_color_platf`
  unfoldable pub recv_color : Env Slots → ColorBuf → ℕ → Slots → Outcome (Msg × Slots)
  recv_color env cbuf fuel slots = scan env cbuf.num_ues (color_probe cbuf) fuel 0 0 slots

  -- one round of the loop of `ssmp_recv_color_start_platf`, with the static `start_recv_from`
  unfoldable pub start_probe : ColorBuf → ℕ → Slots → Probe (Msg × Slots × ℕ)
  start_probe cbuf i s = elim (color_probe cbuf i s) [
    | hit (m, s') ↦ hit (m, s', advance_start cbuf.num_ues i)
    | miss ↦ miss
    | bad ↦ bad
  ]

  -- `ssmp_recv_color_start_platf`, with the value of the static `start_recv_from` before and after
  unfoldable pub recv_color_start : Env Slots → ColorBuf → ℕ → ℕ → Slots → Outcome (Msg × Slots × ℕ)
  recv_color_start env cbuf fuel start slots =
      scan env cbuf.num_ues (start_probe cbuf) fuel 0 start slots

  -- `ssmp_send_platf`: the caller's message, whose state is set too, and the buffers afterwards.
  unfoldable pub send : Env Slots → ℕ → ℕ → Msg → Slots → Outcome (Msg × Slots)
  send env fuel to msg slots = do
    s ← await env (λ s. acquire atomic s to ssmp_buf_empty) fuel 0 slots
    let msg' = set_state ssmp_buf_messg msg
    done (msg', update s to msg')

-- `id` is `ssmp_id_`.
module _ (atomic : Bool) (id : ℕ) where
  -- one round of the loop of `ssmp_recv_platf`
  unfoldable pub recv_probe : ℕ → Slots → Probe (Msg × Slots)
  recv_probe from s = if from == id then miss else elim (acquire atomic s from ssmp_buf_messg) [
    | none ↦ miss
    | some s' ↦ hit (set_sender from (s' from), release s' from)
  ]

  -- `ssmp_recv_platf`
  unfoldable pub recv : Env Slots → ℕ → ℕ → Slots → Outcome (Msg × Slots)
  recv env num_ues fuel slots = scan env num_ues recv_probe fuel 0 0 slots

-- `ssmp_send_is_free_platf`
unfoldable pub send_is_free : ℕ → Slots → Bool
send_is_free to s = state (s to) == ssmp_buf_empty

-- `ssmp_send_no_sync_platf`
unfoldable pub send_no_sync : ℕ → Msg → Slots → Msg × Slots
send_no_sync to msg s = let msg' = set_state ssmp_buf_messg msg in (msg', update s to msg')

-- `ssmp_send_big_platf`, with SSMP_CHUNK_SIZE of src/include/ssmp_x86.h
unfoldable pub send_big :
    {P : Type 0}
    → (ℕ → Env (Chunks × P))
    → (fuel id : ℕ) → List ℕ
    → (length : ℕ) → Chunks × P
    → Outcome (Chunks × P)
send_big env fuel id bytes length s = Calls.send_big 8192 env fuel id bytes length s

-- `ssmp_recv_from_big_platf`
unfoldable pub recv_from_big :
    {P : Type 0}
    → (ℕ → Env (Chunks × P))
    → (fuel from length : ℕ) → Chunks × P
    → Outcome (List ℕ × (Chunks × P))
recv_from_big env fuel from length s = Calls.recv_from_big 8192 env fuel from length s
