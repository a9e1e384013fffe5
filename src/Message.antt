-- ===== src/Message.antt =====
-- Messages and their flag: src/include/ssmp.h, src/include/ssmp_x86.h, src/include/ssmp_sparc.h.
pub mod Laws
use ssmp.Base.{ℕ, ◌+◌, ◌*◌, ◌/◌, ◌%◌, ◌^◌, Bool, List, Option, none, some, if◌then◌else◌, ◌==◌}
use ssmp.Base.Family.{update}

abbrev pub ssmp_buf_empty : ℕ
ssmp_buf_empty = 0

abbrev pub ssmp_buf_messg : ℕ
ssmp_buf_messg = 1

abbrev pub ssmp_buf_lockd : ℕ
ssmp_buf_lockd = 2

-- `ssmp_msg_t`: the words w0 to w7 and f[0] to f[5], and the eight bytes of the union, in which
-- `state` is the lowest byte, `sender` the lower half and `pad` the whole.
pub record Msg : Type 0 where
  pub words : List ℕ
  pub pad : ℕ

unfoldable pub state : Msg → ℕ
state m = m.pad % 2 ^ 8

unfoldable pub sender : Msg → ℕ
sender m = m.pad % 2 ^ 32

unfoldable pub set_state : ℕ → Msg → Msg
set_state v m = record m { pad = m.pad / 2 ^ 8 * 2 ^ 8 + v % 2 ^ 8 }

unfoldable pub set_sender : ℕ → Msg → Msg
set_sender v m = record m { pad = m.pad / 2 ^ 32 * 2 ^ 32 + v % 2 ^ 32 }

-- The buffers that a process receives from, or sends to, by the id of the other process.
abbrev pub Slots : Type 0
Slots = ℕ → Msg

-- `__sync_bool_compare_and_swap` on the state of buffer `p`; `none` if it fails.
unfoldable pub compare_and_swap : Slots → ℕ → ℕ → ℕ → Option Slots
compare_and_swap s p old new =
    if state (s p) == old then some (update s p (set_state new (s p))) else none

-- a plain comparison of that state
unfoldable pub load_and_test : Slots → ℕ → ℕ → Option Slots
load_and_test s p old = if state (s p) == old then some s else none

-- The test of a waiting loop, as USE_ATOMIC chooses it.
unfoldable pub acquire : Bool → Slots → ℕ → ℕ → Option Slots
unfolding compare_and_swap load_and_test
acquire atomic s p old =
    if atomic then compare_and_swap s p old ssmp_buf_lockd else load_and_test s p old

-- `tmpm->state = SSMP_BUF_EMPTY`
unfoldable pub release : Slots → ℕ → Slots
unfolding set_state
release s p = update s p (set_state ssmp_buf_empty (s p))
