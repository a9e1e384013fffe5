-- ===== src/BigMessage/Tests.antt =====
-- A big message of chunks of four bytes, in turns: the byte in the place of the state arrives as 1.
use ssmp.Base.{ℕ, ◌≡◌, refl, List, [], ◌∷◌}
use ssmp.Base.Outcome.{done}
use ssmp.BigMessage.{chunk_state, send_block, recv_block, rounds, transfer, sizes}

abbrev four : List ℕ
four = 0 ∷ 0 ∷ 0 ∷ 0 ∷ []

abbrev six : List ℕ
six = 10 ∷ 11 ∷ 12 ∷ 13 ∷ 14 ∷ 15 ∷ []

sizes_run : sizes 4 6 ≡ 4 ∷ 2 ∷ []
unfolding sizes
sizes_run = refl

transfer_run : transfer 4 four six ≡ done (10 ∷ 11 ∷ 12 ∷ 1 ∷ 14 ∷ 15 ∷ [], 14 ∷ 15 ∷ 12 ∷ 0 ∷ [])
unfolding transfer rounds send_block recv_block sizes chunk_state
transfer_run = refl
