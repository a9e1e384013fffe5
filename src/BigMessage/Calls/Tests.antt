-- ===== src/BigMessage/Calls/Tests.antt =====
-- A message of six bytes through a chunk of four, the other process some looks late in each round, and
-- the theorems at it.
use ssmp.Base.{ℕ, ◌<◌, ◌≡◌, refl, arith, List, [], ◌∷◌, length, get_or}
use ssmp.Base.Outcome.{done}
use ssmp.BigMessage.{chunk_state, sizes}
use ssmp.BigMessage.Lockstep.{IsFree}
use ssmp.BigMessage.Corruption.{arriving}
use ssmp.BigMessage.Calls.{Chunks, send_big, recv_from_big}
use ssmp.BigMessage.Calls.Duet.{Other, consume, produce, other}
use ssmp.BigMessage.Calls.Sending.{send_big_lem}
use ssmp.BigMessage.Calls.Receiving.{recv_from_big_lem}

abbrev free_chunks : Chunks
free_chunks p = 0 ∷ 0 ∷ 0 ∷ 0 ∷ []

abbrev hello : List ℕ
hello = 10 ∷ 11 ∷ 12 ∷ 13 ∷ 14 ∷ 15 ∷ []

abbrev two_late : ℕ → ℕ
two_late r = 2

free_chunks-IsFree : IsFree 4 (free_chunks 3)
unfolding chunk_state
free_chunks-IsFree = record { size = refl; free = refl }

send_big_lem_example :
    (s' : Chunks × Other) × (last : Chunks) × (got : List ℕ) × (send_big 4
        (other 4 3 (consume 4 3) two_late)
        5
        3
        hello
        (length hello)
        (free_chunks, (sizes 4 (length hello), []))
      ≡ done s')
    × (consume 4 3 s' ≡ (last, ([], got)))
    × IsFree 4 (last 3)
    × (length got ≡ length hello)
    × ((i : ℕ) → i < length hello → get_or got i 0 ≡ arriving 4 hello i)
send_big_lem_example =
    send_big_lem 4 3 two_late 5 (omega arith) (λ r. omega arith) hello free_chunks
      free_chunks-IsFree

recv_from_big_lem_example :
    (got : List ℕ) × (last : Chunks) × (left : List ℕ) × (recv_from_big 4
        (other 4 3 (produce 4 3) two_late)
        5
        3
        (length hello)
        (free_chunks, (sizes 4 (length hello), hello))
      ≡ done (got, (last, ([], left))))
    × IsFree 4 (last 3)
    × (length got ≡ length hello)
    × ((i : ℕ) → i < length hello → get_or got i 0 ≡ arriving 4 hello i)
recv_from_big_lem_example =
    recv_from_big_lem 4 3 two_late 5 (omega arith) (λ r. omega arith) hello free_chunks
      free_chunks-IsFree
