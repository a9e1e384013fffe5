-- ===== src/Channel.antt =====
-- One buffer of src/platform/niagara/ssmp_platf.c: one process sends to another, which receives from it,
-- and the shared accesses of both come in any order. A message is copied a double word at a time
-- (`memcpy64` of src/include/ssmp_sparc.h: two of them). The memory keeps the loads of one process in
-- order, and its stores behind them and in order, as the total store order of SPARC does.
pub mod Invariant
pub mod Fifo
pub mod Refine
mod Tests
use ssmp.Base.{ℕ, ◌+◌, ◌<◌, ◌≡◌}
use ssmp.Base.Family.{update}

-- the double words of a message, by their index
abbrev pub Dwords : Type 0
Dwords = ℕ → ℕ

-- Where a process stands in `ssmp_send_platf`, or in `ssmp_recv_from_platf`.
pub data Phase : Type 0 where
  idle : Phase  -- before the call and after the return
  waiting : Phase  -- in the loop on the state
  copying : (k : ℕ) → Phase  -- in `memcpy64`, with `k` double words copied

-- The buffer and the two processes. The last four fields are history variables: the messages whose
-- sending has ended, and those whose receiving has, with their numbers.
pub record Channel : Type 0 where
  pub flag : ℕ
  pub buf : Dwords
  pub sender : Phase
  pub outgoing : Dwords
  pub receiver : Phase
  pub incoming : Dwords
  pub sent : ℕ
  pub log : ℕ → Dwords
  pub received : ℕ
  pub got : ℕ → Dwords

-- `d` is SSMP_CACHE_LINE_DW.
pub data Step (d : ℕ) (s : Channel) : Channel → Type 0 where
  call_send :
      (m : Dwords) → s.sender ≡ idle → Step d s (record s { sender = waiting; outgoing = m })
  see_empty : s.sender ≡ waiting → s.flag ≡ 0 → Step d s (record s { sender = copying 0 })
  put :
      {k : ℕ}
      → s.sender ≡ copying k
      → k < d
      → Step d s (record s { buf = update s.buf k (s.outgoing k); sender = copying (k + 1) })
  set_messg :
      s.sender ≡ copying d
      → Step d s (record s {
        flag = 1;
        sender = idle;
        sent = s.sent + 1;
        log = update s.log s.sent s.outgoing;
      })
  call_recv : s.receiver ≡ idle → Step d s (record s { receiver = waiting })
  see_messg : s.receiver ≡ waiting → s.flag ≡ 1 → Step d s (record s { receiver = copying 0 })
  get :
      {k : ℕ}
      → s.receiver ≡ copying k
      → k < d
      → Step d s (record s { incoming = update s.incoming k (s.buf k); receiver = copying (k + 1) })
  set_empty :
      s.receiver ≡ copying d
      → Step d s (record s {
        flag = 0;
        receiver = idle;
        received = s.received + 1;
        got = update s.got s.received s.incoming;
      })

abbrev pub nothing : Dwords
nothing i = 0

-- the buffer as `ssmp_mem_init_platf` leaves it
abbrev pub fresh : Dwords → Channel
fresh junk = record {
  flag = 0;
  buf = junk;
  sender = idle;
  outgoing = nothing;
  receiver = idle;
  incoming = nothing;
  sent = 0;
  log = λ _. nothing;
  received = 0;
  got = λ _. nothing;
}

pub data Reach (d : ℕ) (junk : Dwords) : Channel → Type 0 where
  start : Reach d junk (fresh junk)
  next : {s t : Channel} → Reach d junk s → Step d s t → Reach d junk t
