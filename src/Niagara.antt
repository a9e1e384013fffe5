-- ===== src/Niagara.antt =====
-- src/platform/niagara/ssmp_platf.c: the port for SPARC, with the short messages of
-- src/include/ssmp_sparc.h (SPARC_SMALL_MSG), whose `state` and `sender` are one byte.
pub mod Recv
mod Tests
use ssmp.Base.{
  ℕ, Bool, List, ◌++◌, take, drop, Option, none, some, get_elem?, if◌then◌else◌, ◌==◌, ◌%◌, ◌^◌,
}
use ssmp.Base.Family.{update}
use ssmp.Base.Outcome.{Outcome, done, ◌>>=◌}
use ssmp.Message.{ssmp_buf_empty, ssmp_buf_messg}
use ssmp.ColorBuf.{ColorBuf}
use ssmp.BigMessage.Calls
use ssmp.BigMessage.Calls.{Chunks}
use ssmp.Poll.{Env, Probe, hit, miss, bad, await, scan}
use ssmp.Generic.{advance_start}

-- `ssmp_msg_t`: w0 and w1 in one double word, w2 and w3 in another, and the byte that is `state` and
-- `sender`
pub record ShortMsg : Type 0 where
  pub low : ℕ
  pub high : ℕ
  pub tag : ℕ

abbrev pub ShortSlots : Type 0
ShortSlots = ℕ → ShortMsg

-- `memcpy64(dst, src, SSMP_CACHE_LINE_DW)`
unfoldable pub memcpy64 : (dst src : ShortMsg) → ShortMsg
memcpy64 dst src = record dst { low = src.low; high = src.high }

unfoldable pub set_tag : ℕ → ShortMsg → ShortMsg
set_tag v m = record m { tag = v % 2 ^ 8 }

-- `tmpm->state = SSMP_BUF_EMPTY`
unfoldable pub empty_slot : ShortSlots → ℕ → ShortSlots
unfolding set_tag
empty_slot s p = update s p (set_tag ssmp_buf_empty (s p))

-- a comparison of the state of buffer `p`
unfoldable pub has_state : ShortSlots → ℕ → ℕ → Option ShortSlots
has_state s p v = if (s p).tag == v then some s else none

-- `ssmp_recv_from_platf` into `msg`: the caller's message, and the buffers afterwards.
unfoldable pub recv_from :
    Env ShortSlots → ℕ → ℕ → ShortMsg → ShortSlots → Outcome (ShortMsg × ShortSlots)
recv_from env fuel from msg slots = do
  s ← await env (λ s. has_state s from ssmp_buf_messg) fuel 0 slots
  done (memcpy64 msg (s from), empty_slot s from)

-- one round of the loop of `ssmp_recv_platf` in process `id`
unfoldable pub recv_probe : ℕ → ShortMsg → ℕ → ShortSlots → Probe (ShortMsg × ShortSlots)
recv_probe id msg from s = if from == id then miss else elim (has_state s from ssmp_buf_messg) [
  | none ↦ miss
  | some s' ↦ hit (set_tag from (memcpy64 msg (s' from)), empty_slot s' from)
]

-- `ssmp_recv_platf`
unfoldable pub recv :
    ℕ → Env ShortSlots → ℕ → ℕ → ShortMsg → ShortSlots → Outcome (ShortMsg × ShortSlots)
recv id env num_ues fuel msg slots = scan env num_ues (recv_probe id msg) fuel 0 0 slots

-- One round of the loop of `ssmp_recv_color_platf`. The `start_recv_from` that it advances in the end
-- is a local variable there.
unfoldable pub color_probe : ColorBuf → ShortMsg → ℕ → ShortSlots → Probe (ShortMsg × ShortSlots)
color_probe cbuf msg i s = elim (get_elem? cbuf.buf_state i) [
  | none ↦ bad
  | some p ↦ elim (has_state s p ssmp_buf_messg) [
    | none ↦ miss
    | some s' ↦ elim (get_elem? cbuf.buf i) [
      | none ↦ bad
      | some q ↦ elim (get_elem? cbuf.from i) [
        | none ↦ bad
        | some from ↦ hit (set_tag from (memcpy64 msg (s' q)), empty_slot s' q)
      ]
    ]
  ]
]

-- `ssmp_recv_color_platf`
unfoldable pub recv_color :
    Env ShortSlots → ColorBuf → ℕ → ShortMsg → ShortSlots → Outcome (ShortMsg × ShortSlots)
recv_color env cbuf fuel msg slots = scan env cbuf.num_ues (color_probe cbuf msg) fuel 0 0 slots

-- one round of the loop of `ssmp_recv_color_start_platf`
unfoldable pub start_probe :
    ColorBuf → ShortMsg → ℕ → ShortSlots → Probe (ShortMsg × ShortSlots × ℕ)
start_probe cbuf msg i s = elim (color_probe cbuf msg i s) [
  | hit (m, s') ↦ hit (m, s', advance_start cbuf.num_ues i)
  | miss ↦ miss
  | bad ↦ bad
]

-- `ssmp_recv_color_start_platf`
unfoldable pub recv_color_start :
    Env ShortSlots → ColorBuf → ℕ → ℕ → ShortMsg → ShortSlots → Outcome (ShortMsg × ShortSlots × ℕ)
recv_color_start env cbuf fuel start msg slots =
    scan env cbuf.num_ues (start_probe cbuf msg) fuel 0 start slots

-- `ssmp_send_no_sync_platf`; the caller's message stays as it is.
unfoldable pub send_no_sync : ℕ → ShortMsg → ShortSlots → ShortSlots
unfolding set_tag memcpy64
send_no_sync to msg s = update s to (set_tag ssmp_buf_messg (memcpy64 (s to) msg))

-- `ssmp_send_platf`
unfoldable pub send : Env ShortSlots → ℕ → ℕ → ShortMsg → ShortSlots → Outcome ShortSlots
send env fuel to msg slots = do
  s ← await env (λ s. has_state s to ssmp_buf_empty) fuel 0 slots
  done (update s to (set_tag ssmp_buf_messg (memcpy64 (s to) msg)))

-- `ssmp_send_is_free_platf`
unfoldable pub send_is_free : ℕ → ShortSlots → Bool
send_is_free to s = (s to).tag == ssmp_buf_empty

-- SSMP_CHUNK_SIZE of src/include/ssmp_sparc.h
unfoldable pub sparc_chunk_size : (sparcv8 : Bool) → ℕ
sparc_chunk_size sparcv8 = if sparcv8 then 1024 else 8192

-- `ssmp_send_big_platf`, with the chunk of SPARC
unfoldable pub send_big :
    {P : Type 0}
    → (sparcv8 : Bool) → (ℕ → Env (Chunks × P))
    → (fuel id : ℕ) → List ℕ
    → (length : ℕ) → Chunks × P
    → Outcome (Chunks × P)
send_big sparcv8 env fuel id bytes length s =
    Calls.send_big (sparc_chunk_size sparcv8) env fuel id bytes length s

-- `ssmp_recv_from_big_platf`
unfoldable pub recv_from_big :
    {P : Type 0}
    → (sparcv8 : Bool) → (ℕ → Env (Chunks × P))
    → (fuel from length : ℕ) → Chunks × P
    → Outcome (List ℕ × (Chunks × P))
recv_from_big sparcv8 env fuel from length s =
    Calls.recv_from_big (sparc_chunk_size sparcv8) env fuel from length s
