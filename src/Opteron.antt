-- ===== src/Opteron.antt =====
-- src/platform/opteron/ssmp_platf.c: the generic port with prefetches. A prefetch of a buffer reads its
-- address out of an array of pointers, and the one of the next buffer may read past that array.
pub mod Agree
mod Tests
use ssmp.Base.{List, ℕ, Bool, Option, none, some, get_elem?, if◌then◌else◌, ◌==◌, ◌+◌, ltb, ◌/◌}
use ssmp.Base.Family.{update}
use ssmp.Base.Outcome.{Outcome, done, fault, ◌>>=◌}
use ssmp.Message.{
  Msg, Slots, ssmp_buf_empty, ssmp_buf_messg, state, set_state, set_sender, acquire, release,
}
use ssmp.ColorBuf.{ColorBuf}
use ssmp.BigMessage.Calls
use ssmp.BigMessage.Calls.{Chunks}
use ssmp.Poll.{Env, Probe, hit, miss, bad, await, scan}
use ssmp.Generic.{advance_start}

-- `rooms` is the number of pointers in `ssmp_recv_buf`, which `ssmp_send_buf` has as well.
module _ (atomic : Bool) (rooms : ℕ) where
  -- `PREFETCHW(ssmp_recv_buf[i])`
  unfoldable pub prefetch {ℓ} : {R : Type ℓ} → ℕ → Probe R → Probe R
  prefetch i p = if ltb i rooms then p else bad

  -- `ssmp_recv_from_platf`; the address of the buffer is read first.
  unfoldable pub recv_from : Env Slots → ℕ → ℕ → Slots → Outcome (Msg × Slots)
  recv_from env fuel from slots =
      if ltb from rooms
      then (do
        s ← await env (λ s. acquire atomic s from ssmp_buf_messg) fuel 0 slots
        done (s from, release s from))
      else fault

  -- one round of the loop of `ssmp_recv_platf` in process `id`
  unfoldable pub recv_probe : ℕ → ℕ → Slots → Probe (Msg × Slots)
  unfolding prefetch
  recv_probe id from s = prefetch from (
      if from == id then miss else elim (acquire atomic s from ssmp_buf_messg) [
        | none ↦ miss
        | some s' ↦ prefetch (from + 1) (hit (set_sender from (s' from), release s' from))
      ])

  -- `ssmp_recv_platf`
  unfoldable pub recv : ℕ → Env Slots → ℕ → ℕ → Slots → Outcome (Msg × Slots)
  recv id env num_ues fuel slots = scan env num_ues (recv_probe id) fuel 0 0 slots

  -- `PREFETCHW(buf[i])`
  unfoldable pub prefetch_entry {ℓ} : {R : Type ℓ} → ColorBuf → ℕ → Probe R → Probe R
  prefetch_entry cbuf i p = elim (get_elem? cbuf.buf i) [ none ↦ bad | some _ ↦ p ]

  -- the copy of the message of entry `i`, with the prefetch of the buffer to its sender
  unfoldable pub collect : ColorBuf → ℕ → Slots → Probe (Msg × Slots)
  unfolding prefetch
  collect cbuf i s = elim (get_elem? cbuf.buf i) [
    | none ↦ bad
    | some p ↦ elim (get_elem? cbuf.from i) [
      | none ↦ bad
      | some tag ↦ prefetch tag (hit (set_sender tag (s p), release s p))
    ]
  ]

  -- the test of entry `i`, after the prefetch of its buffer
  unfoldable pub take_entry : ColorBuf → ℕ → Slots → Probe (Msg × Slots)
  unfolding collect prefetch_entry
  take_entry cbuf i s = prefetch_entry cbuf i (elim (get_elem? cbuf.buf_state i) [
    | none ↦ bad
    | some p ↦ elim (acquire atomic s p ssmp_buf_messg) [
      | none ↦ miss
      | some s' ↦ collect cbuf i s'
    ]
  ])

  -- one round of the loop of `ssmp_recv_color_platf`, which prefetches `buf[from + 1]` in the end
  unfoldable pub color_probe : ColorBuf → ℕ → Slots → Probe (Msg × Slots)
  unfolding take_entry prefetch_entry
  color_probe cbuf i s = elim (take_entry cbuf i s) [
    | hit r ↦ prefetch_entry cbuf (i + 1) (hit r)
    | miss ↦ miss
    | bad ↦ bad
  ]

  -- `ssmp_recv_color_platf`
  unfoldable pub recv_color : Env Slots → ColorBuf → ℕ → Slots → Outcome (Msg × Slots)
  recv_color env cbuf fuel slots = scan env cbuf.num_ues (color_probe cbuf) fuel 0 0 slots

  -- one round of the loop of `ssmp_recv_color_start_platf`, which prefetches `buf[start_recv_from]`
  unfoldable pub start_probe : ColorBuf → ℕ → Slots → Probe (Msg × Slots × ℕ)
  unfolding take_entry prefetch_entry
  start_probe cbuf i s = elim (take_entry cbuf i s) [
    | hit (m, s') ↦
        let next = advance_start cbuf.num_ues i in prefetch_entry cbuf next (hit (m, s', next))
    | miss ↦ miss
    | bad ↦ bad
  ]

  -- `ssmp_recv_color_start_platf`
  unfoldable pub recv_color_start : Env Slots → ColorBuf → ℕ → ℕ → Slots → Outcome (Msg × Slots × ℕ)
  recv_color_start env cbuf fuel start slots =
      scan env cbuf.num_ues (start_probe cbuf) fuel 0 start slots

  -- `ssmp_send_platf`
  unfoldable pub send : Env Slots → ℕ → ℕ → Msg → Slots → Outcome (Msg × Slots)
  send env fuel to msg slots =
      if ltb to rooms
      then (do
        s ← await env (λ s. acquire atomic s to ssmp_buf_empty) fuel 0 slots
        let msg' = set_state ssmp_buf_messg msg
        done (msg', update s to msg'))
      else fault

  -- `ssmp_send_is_free_platf`
  unfoldable pub send_is_free : ℕ → Slots → Outcome Bool
  send_is_free to s = if ltb to rooms then done (state (s to) == ssmp_buf_empty) else fault

  -- `ssmp_send_no_sync_platf`
  unfoldable pub send_no_sync : ℕ → Msg → Slots → Outcome (Msg × Slots)
  send_no_sync to msg s =
      if ltb to rooms
      then (let msg' = set_state ssmp_buf_messg msg in done (msg', update s to msg'))
      else fault

-- The node that `set_numa_platf` prefers for a core.
unfoldable pub numa_node : ℕ → ℕ
numa_node cpu = cpu / 6

-- `ssmp_send_big_platf`, with SSMP_CHUNK_SIZE of src/include/ssmp_x86.h
unfoldable pub send_big :
    {P : Type 0}
    → (ℕ → Env (Chunks × P))
    → (fuel id : ℕ) → List ℕ
    → (length : ℕ) → Chunks × P
    → Outcome (Chunks × P)
send_big env fuel id bytes length s = Calls.send_big 8192 env fuel id bytes length s

-- `ssmp_recv_from_big_platf`
unfoldable pub recv_from_big :
    {P : Type 0}
    → (ℕ → Env (Chunks × P))
    → (fuel from length : ℕ) → Chunks × P
    → Outcome (List ℕ × (Chunks × P))
recv_from_big env fuel from length s = Calls.recv_from_big 8192 env fuel from length s
