-- ===== src/Xeon.antt =====
-- src/platform/xeon/ssmp_platf.c: the port that takes a buffer by a compare-and-swap if the other
-- process runs on another socket, and by a plain load if not.
pub mod Agree
mod Tests
use ssmp.Base.{
  ℕ, Bool, true, false, not, Option, none, some, get_elem?, if◌then◌else◌, ◌==◌, ◌+◌, List, [], ◌∷◌,
  ◌++◌, replicate, zero, suc,
}
use ssmp.Base.Family.{update}
use ssmp.Base.Outcome.{Outcome, done, fault, ◌>>=◌}
use ssmp.Message.{
  Msg, Slots, ssmp_buf_empty, ssmp_buf_messg, state, set_state, set_sender, load_and_test, acquire,
  release,
}
use ssmp.ColorBuf.{ColorBuf}
use ssmp.BigMessage.Calls
use ssmp.BigMessage.Calls.{Chunks}
use ssmp.Poll.{Env, Probe, hit, miss, bad, await, scan}
use ssmp.Generic.{collect, advance_start}

-- the numbers from `a` on, `k` of them
unfoldable pub numbers : ℕ → ℕ → List ℕ
numbers a zero = []
numbers a (suc k) = a ∷ numbers (a + 1) k

-- 1 to 40, then 0, then 41 to 255
unfoldable pub id_to_core : List ℕ
unfolding numbers
id_to_core = numbers 1 40 ++ (0 ∷ numbers 41 215)

-- Core 0 is on node 4, which has nine other cores; the other nodes have ten.
unfoldable pub id_to_node : List ℕ
id_to_node =
    (4 ∷ [])
    ++ (replicate 10 0
        ++ (replicate 10 1
            ++ (replicate 10 2
                ++ (replicate 10 3
                    ++ (replicate 9 4 ++ (replicate 10 5 ++ (replicate 10 6 ++ replicate 10 7)))))))

-- `id_to_node[id_to_core[core]]`; `none` is a read past the end of a table.
unfoldable pub node_of : ℕ → Option ℕ
unfolding id_to_core id_to_node
node_of core = elim (get_elem? id_to_core core) [ none ↦ none | some k ↦ get_elem? id_to_node k ]

-- `ssmp_cores_on_same_socket_platf`
unfoldable pub cores_on_same_socket : ℕ → ℕ → Option Bool
cores_on_same_socket core1 core2 = elim (node_of core1) [
  | none ↦ none
  | some a ↦ elim (node_of core2) [ none ↦ none | some b ↦ some (a == b) ]
]

-- `id` is `ssmp_id_`.
module _ (id : ℕ) where
  -- `ssmp_recv_from_platf`
  unfoldable pub recv_from : Env Slots → ℕ → ℕ → Slots → Outcome (Msg × Slots)
  recv_from env fuel from slots = elim (cores_on_same_socket id from) [
    | none ↦ fault
    | some same ↦ do
      s ← await env (λ s. acquire (not same) s from ssmp_buf_messg) fuel 0 slots
      done (s from, release s from)
  ]

  -- One round of the loop of `ssmp_recv_platf`; USE_ATOMIC is 0 in src/include/ssmp.h.
  unfoldable pub recv_probe : Bool → ℕ → Slots → Probe (Msg × Slots)
  recv_probe atomic from s =
      if from == id then miss else elim (acquire atomic s from ssmp_buf_messg) [
        | none ↦ miss
        | some s' ↦ hit (set_sender from (s' from), release s' from)
      ]

  -- `ssmp_recv_platf`
  unfoldable pub recv : Bool → Env Slots → ℕ → ℕ → Slots → Outcome (Msg × Slots)
  recv atomic env num_ues fuel slots = scan env num_ues (recv_probe atomic) fuel 0 0 slots

  -- One round of the loop of `ssmp_recv_color_platf`. The socket that is compared is that of the
  -- core with the number of the entry, and not that of the process the entry is about.
  unfoldable pub color_probe : ColorBuf → ℕ → Slots → Probe (Msg × Slots)
  color_probe cbuf i s = elim (cores_on_same_socket id i) [
    | none ↦ bad
    | some same ↦ elim (get_elem? cbuf.buf_state i) [
      | none ↦ bad
      | some p ↦ elim (acquire (not same) s p ssmp_buf_messg) [
        | none ↦ miss
        | some s' ↦ collect cbuf i s'
      ]
    ]
  ]

  -- `ssmp_recv_color_platf`
  unfoldable pub recv_color : Env Slots → ColorBuf → ℕ → Slots → Outcome (Msg × Slots)
  recv_color env cbuf fuel slots = scan env cbuf.num_ues (color_probe cbuf) fuel 0 0 slots

  -- one round of the loop of `ssmp_recv_color_start_platf`
  unfoldable pub start_probe : ColorBuf → ℕ → Slots → Probe (Msg × Slots × ℕ)
  start_probe cbuf i s = elim (color_probe cbuf i s) [
    | hit (m, s') ↦ hit (m, s', advance_start cbuf.num_ues i)
    | miss ↦ miss
    | bad ↦ bad
  ]

  -- `ssmp_recv_color_start_platf`
  unfoldable pub recv_color_start : Env Slots → ColorBuf → ℕ → ℕ → Slots → Outcome (Msg × Slots × ℕ)
  recv_color_start env cbuf fuel start slots =
      scan env cbuf.num_ues (start_probe cbuf) fuel 0 start slots

  -- `ssmp_send_platf`
  unfoldable pub send : Env Slots → ℕ → ℕ → Msg → Slots → Outcome (Msg × Slots)
  send env fuel to msg slots = elim (cores_on_same_socket id to) [
    | none ↦ fault
    | some same ↦ do
      s ← await env (λ s. acquire (not same) s to ssmp_buf_empty) fuel 0 slots
      let msg' = set_state ssmp_buf_messg msg
      done (msg', update s to msg')
  ]

-- `ssmp_send_is_free_platf`
unfoldable pub send_is_free : ℕ → Slots → Bool
send_is_free to s = state (s to) == ssmp_buf_empty

-- `ssmp_send_no_sync_platf`
unfoldable pub send_no_sync : ℕ → Msg → Slots → Msg × Slots
send_no_sync to msg s = let msg' = set_state ssmp_buf_messg msg in (msg', update s to msg')

-- `ssmp_send_big_platf`, with SSMP_CHUNK_SIZE of src/include/ssmp_x86.h
unfoldable pub send_big :
    {P : Type 0}
    → (ℕ → Env (Chunks × P))
    → (fuel id : ℕ) → List ℕ
    → (length : ℕ) → Chunks × P
    → Outcome (Chunks × P)
send_big env fuel id bytes length s = Calls.send_big 8192 env fuel id bytes length s

-- `ssmp_recv_from_big_platf`
unfoldable pub recv_from_big :
    {P : Type 0}
    → (ℕ → Env (Chunks × P))
    → (fuel from length : ℕ) → Chunks × P
    → Outcome (List ℕ × (Chunks × P))
recv_from_big env fuel from length s = Calls.recv_from_big 8192 env fuel from length s
