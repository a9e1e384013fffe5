-- ===== src/Opteron/Tests.antt =====
-- The theorems on the port for Opteron at concrete inputs.
use ssmp.Base.{
  ℕ, zero, suc, ◌<◌, ◌≡◌, refl, true, arith, [], ◌∷◌, some, get_elem?, if◌then◌else◌, ◌==◌,
}
use ssmp.Message.{Slots}
use ssmp.ColorBuf.{ColorBuf, IsFilled}
use ssmp.Poll.{Env}
use ssmp.Generic
use ssmp.Opteron.{recv_color_start}
use ssmp.Opteron.Agree.{recv_color_start-Generic}

-- a message from process 3 is pending
abbrev from_three : Slots
from_three i =
    if i == 3 then record { words = 7 ∷ 8 ∷ []; pad = 1 } else record { words = []; pad = 0 }

abbrev still : Env Slots
still _ s = s

-- one entry, about process 3, and a spare one
abbrev entry_of_three : ColorBuf
entry_of_three = record { num_ues = 1; buf_state = 3 ∷ 9 ∷ []; buf = 3 ∷ 9 ∷ []; from = 3 ∷ 9 ∷ [] }

abbrev three : ℕ → ℕ
three i = 3

entry_of_three-IsFilled : IsFilled entry_of_three three
entry_of_three-IsFilled = record { states = only; bufs = only; froms = only }
  where
    only : (i : ℕ) → i < 1 → get_elem? {A = ℕ} (3 ∷ 9 ∷ []) i ≡ some 3
    only zero lt = refl
    only (suc i) lt = absurd (omega arith)

recv_color_start-Generic_example :
    recv_color_start true 4 still entry_of_three 9 0 from_three
    ≡ Generic.recv_color_start true still entry_of_three 9 0 from_three
recv_color_start-Generic_example =
    recv_color_start-Generic true 4 entry_of_three three entry_of_three-IsFilled
      (λ i lt. omega arith) still 9 0 from_three
