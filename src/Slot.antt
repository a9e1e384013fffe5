-- ===== src/Slot.antt =====
-- One buffer of src/platform/generic/ssmp_platf.c, a word at a time: one process sends to another with
-- `ssmp_send_platf`, which receives from it with `ssmp_recv_from_platf`, and the shared accesses of
-- both come in any order. The memory keeps the stores of a process in their order; `memcpy` may
-- store the words of a message in any order, which is a parameter. The words are the eight-byte
-- words of a cache line, of which the last has the state.
pub mod Words
pub mod Invariant
pub mod Order
pub mod Torn
pub mod Refine
pub mod Progress
pub mod Calls
mod Tests
use ssmp.Base.{ℕ, ◌+◌, ◌-◌, ◌<◌, ◌≡◌, Bool, if◌then◌else◌, ◌==◌}
use ssmp.Base.Family.{update}
use Words.{seen_word}

-- where a process stands in its call
pub data Stage : Type 0 where
  away : Stage  -- before the call and after the return
  looking : Stage  -- in the loop on the state
  moving : (k : ℕ) → Stage  -- in `memcpy`, with `k` words moved

-- The buffer and the two processes. `flag` is the state, the lowest byte of the last word; `buf` has that
-- word up to its lowest byte, and all others. The last four
-- fields are history variables: the messages that were made visible, and those whose receiving has
-- ended, with their numbers.
pub record Slot : Type 0 where
  pub flag : ℕ
  pub buf : ℕ → ℕ
  pub sender : Stage
  pub outgoing : ℕ → ℕ
  pub receiver : Stage
  pub incoming : ℕ → ℕ
  pub sent : ℕ
  pub log : ℕ → ℕ → ℕ
  pub received : ℕ
  pub got : ℕ → ℕ → ℕ

-- `atomic` is USE_ATOMIC, `d` the number of words of a cache line, and `memcpy` stores word `at k` as the
-- `k`-th.
module _ (atomic : Bool) (d : ℕ) (at : ℕ → ℕ) where
  pub data Step (s : Slot) : Slot → Type 0 where
    call_send : (m : ℕ → ℕ) → s.sender ≡ away → Step s (record s { sender = looking; outgoing = m })
    find_empty :
        s.sender ≡ looking
        → s.flag ≡ 0
        → Step s (record s { flag = if atomic then 2 else 0; sender = moving 0 })
    store :
        {k : ℕ}
        → s.sender ≡ moving k
        → k < d
        → at k + 1 < d
        → Step s
            (record s { buf = update s.buf (at k) (s.outgoing (at k)); sender = moving (k + 1) })
    -- the word with the state, which is SSMP_BUF_MESSG
    store_state :
        {k : ℕ}
        → s.sender ≡ moving k
        → k < d
        → at k + 1 ≡ d
        → Step s (record s {
          flag = 1;
          buf = update s.buf (at k) (s.outgoing (at k));
          sender = moving (k + 1);
          sent = s.sent + 1;
          log = update s.log s.sent s.outgoing;
        })
    end_send : s.sender ≡ moving d → Step s (record s { sender = away })
    call_recv : s.receiver ≡ away → Step s (record s { receiver = looking })
    find_messg :
        s.receiver ≡ looking
        → s.flag ≡ 1
        → Step s (record s { flag = if atomic then 2 else 1; receiver = moving 0 })
    -- of the last word, the lowest byte is the state as it is then
    load :
        {k : ℕ}
        → s.receiver ≡ moving k
        → k < d
        → Step s (record s {
          incoming = update s.incoming k (seen_word d s.flag k (s.buf k));
          receiver = moving (k + 1);
        })
    empty :
        s.receiver ≡ moving d
        → Step s (record s {
          flag = 0;
          receiver = away;
          received = s.received + 1;
          got = update s.got s.received s.incoming;
        })

  -- the buffer as `ssmp_mem_init_platf` leaves it
  abbrev pub fresh_slot : (ℕ → ℕ) → Slot
  fresh_slot junk = record {
    flag = 0;
    buf = junk;
    sender = away;
    outgoing = junk;
    receiver = away;
    incoming = junk;
    sent = 0;
    log = λ _. junk;
    received = 0;
    got = λ _. junk;
  }

  pub data Reach (junk : ℕ → ℕ) : Slot → Type 0 where
    begin : Reach junk (fresh_slot junk)
    then_step : {s t : Slot} → Reach junk s → Step s t → Reach junk t
