-- ===== src/BigMessage/Race.antt =====
-- The rounds of `ssmp_send_big_platf` and `ssmp_recv_from_big_platf` of
-- src/platform/generic/ssmp_platf.c in any order: one process sends blocks through its chunk, another
-- receives them. Each `memcpy` moves a byte at a time, the first byte first, and the memory keeps
-- the stores of a process in their order.
pub mod Order
pub mod Twice
mod Tests
use ssmp.Base.{ℕ, ◌+◌, ◌-◌, ◌<◌, ◌≡◌, ◌≢◌}
use ssmp.Base.Family.{update}

-- where a process stands in a round
pub data Round : Type 0 where
  at_state : Round  -- in the loop on `state`
  at_byte : (k : ℕ) → Round  -- in `memcpy`, with `k` bytes copied

-- The chunk, the last byte of which is `state`, and the two processes. `got` is a history variable:
-- the blocks that were received.
pub record Pair : Type 0 where
  pub bytes : ℕ → ℕ
  pub sender : Round
  pub sent : ℕ
  pub receiver : Round
  pub incoming : ℕ → ℕ
  pub received : ℕ
  pub got : ℕ → ℕ → ℕ

-- `c` is SSMP_CHUNK_SIZE, `size k` the number of bytes of block `k` and `msg k` its bytes.
module _ (c : ℕ) (size : ℕ → ℕ) (msg : ℕ → ℕ → ℕ) where
  pub data Step (s : Pair) : Pair → Type 0 where
    see_clear : s.sender ≡ at_state → s.bytes (c - 1) ≡ 0 → Step s (record s { sender = at_byte 0 })
    put_byte :
        {k : ℕ}
        → s.sender ≡ at_byte k
        → k < size s.sent
        → Step s (record s { bytes = update s.bytes k (msg s.sent k); sender = at_byte (k + 1) })
    raise_state :
        s.sender ≡ at_byte (size s.sent)
        → Step s
            (record s { bytes = update s.bytes (c - 1) 1; sender = at_state; sent = s.sent + 1 })
    see_raised :
        s.receiver ≡ at_state → s.bytes (c - 1) ≢ 0 → Step s (record s { receiver = at_byte 0 })
    get_byte :
        {k : ℕ}
        → s.receiver ≡ at_byte k
        → k < size s.received
        → Step s
            (record s { incoming = update s.incoming k (s.bytes k); receiver = at_byte (k + 1) })
    clear_state :
        s.receiver ≡ at_byte (size s.received)
        → Step s (record s {
          bytes = update s.bytes (c - 1) 0;
          receiver = at_state;
          received = s.received + 1;
          got = update s.got s.received s.incoming;
        })

  -- `junk` is what a fresh chunk and the receiver's memory hold, but for `state`.
  abbrev pub fresh_pair : (ℕ → ℕ) → Pair
  fresh_pair junk = record {
    bytes = update junk (c - 1) 0;
    sender = at_state;
    sent = 0;
    receiver = at_state;
    incoming = junk;
    received = 0;
    got = λ _. junk;
  }

  pub data Reach (junk : ℕ → ℕ) : Pair → Type 0 where
    fresh : Reach junk (fresh_pair junk)
    after : {s t : Pair} → Reach junk s → Step s t → Reach junk t
