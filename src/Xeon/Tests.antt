-- ===== src/Xeon/Tests.antt =====
-- The theorems on the port for Xeon at concrete inputs.
use ssmp.Base.{ℕ, suc, ◌≡◌, false, arith, [], ◌∷◌, some, ◌<◌, get_elem?, zero, refl}
use ssmp.Message.{Msg, Slots}
use ssmp.ColorBuf.{ColorBuf, IsFilled}
use ssmp.Poll.{Env}
use ssmp.Generic
use ssmp.Xeon.{recv_color}
use ssmp.Xeon.Agree.{recv_color-Generic}

abbrev empty : Slots
empty i = record { words = []; pad = 0 }

abbrev greeting : Msg
greeting = record { words = 5 ∷ []; pad = 0 }

abbrev quiet : Env Slots
quiet _ s = s

abbrev one_entry : ColorBuf
one_entry = record { num_ues = 1; buf_state = 2 ∷ []; buf = 2 ∷ []; from = 2 ∷ [] }

abbrev two : ℕ → ℕ
two i = 2

one_entry-IsFilled : IsFilled one_entry two
one_entry-IsFilled = record { states = only; bufs = only; froms = only }
  where
    only : (i : ℕ) → i < 1 → get_elem? {A = ℕ} (2 ∷ []) i ≡ some 2
    only zero lt = refl
    only (suc i) lt = absurd (omega arith)

recv_color-Generic_example :
    recv_color 3 quiet one_entry 9 empty ≡ Generic.recv_color false quiet one_entry 9 empty
recv_color-Generic_example =
    recv_color-Generic 3 one_entry two one_entry-IsFilled (omega arith) (omega arith) quiet 9 empty
