-- ===== src/Niagara/Tests.antt =====
-- The theorems on the port for SPARC at concrete inputs.
use ssmp.Base.{ℕ, zero, suc, ◌<◌, ◌≡◌, refl, arith, [], ◌∷◌, some, get_elem?, if◌then◌else◌, ◌==◌}
use ssmp.Base.Outcome.{done}
use ssmp.Message.{ssmp_buf_empty}
use ssmp.ColorBuf.{ColorBuf, IsFilled}
use ssmp.Poll.{memory, scan}
use ssmp.Generic.{advance_start}
use ssmp.Niagara.{
  ShortMsg, ShortSlots, recv_color_start, start_probe, color_probe, has_state, set_tag, memcpy64,
  empty_slot, send, recv_from,
}
use ssmp.Niagara.Recv.{alone, recv_from-send}

-- a message from process 3 is pending
abbrev from_three : ShortSlots
from_three i =
    if i == 3 then record { low = 7; high = 8; tag = 1 } else record { low = 0; high = 0; tag = 0 }

abbrev mine : ShortMsg
mine = record { low = 0; high = 0; tag = 0 }

abbrev entry_of_three : ColorBuf
entry_of_three = record { num_ues = 1; buf_state = 3 ∷ []; buf = 3 ∷ []; from = 3 ∷ [] }

abbrev three : ℕ → ℕ
three i = 3

entry_of_three-IsFilled : IsFilled entry_of_three three
entry_of_three-IsFilled = record { states = only; bufs = only; froms = only }
  where
    only : (i : ℕ) → i < 1 → get_elem? {A = ℕ} (3 ∷ []) i ≡ some 3
    only zero lt = refl
    only (suc i) lt = absurd (omega arith)

always : (u : ℕ) → memory alone from_three u ≡ from_three
unfolding memory
always zero = refl
always (suc u) = always u

start_run :
    recv_color_start alone entry_of_three 4 0 mine from_three
    ≡ done (record { low = 7; high = 8; tag = 3 }, empty_slot from_three 3, 0)
unfolding recv_color_start start_probe color_probe has_state set_tag memcpy64 advance_start scan
start_run = refl

recv_from-send_example :
    (sent after : ShortSlots) × (m : ShortMsg) × (send alone 5 1
        (record { low = 4; high = 9; tag = 0 })
        from_three
      ≡ done sent)
    × (recv_from alone 5 1 mine sent ≡ done (m, after))
    × (m.low ≡ 4)
    × (m.high ≡ 9)
    × ((after 1).tag ≡ ssmp_buf_empty)
recv_from-send_example =
    recv_from-send 4 1 (record { low = 4; high = 9; tag = 0 }) mine from_three refl
