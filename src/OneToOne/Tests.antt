-- ===== src/OneToOne/Tests.antt =====
-- Five messages between two processes, and data of five bytes over chunks of four.
use ssmp.Base.{ℕ, ◌+◌, ◌*◌, ◌-◌, ◌^◌, ◌<◌, ◌≤◌, ◌⊎◌, ◌≡◌, refl, arith, List, [], ◌∷◌}
use ssmp.Base.Outcome.{done}
use ssmp.BigMessage.{chunk_state}
use ssmp.BigMessage.Lockstep.{IsFree}
use ssmp.OneToOne.{Sends, sender_loop, receiver, receiver_loop, cs_receiver}
use ssmp.OneToOne.Pair.{receiver-sender}

sender_run :
    sender_loop (λ w. w) 6 5 0 ≡ done (record { w0s = 0 ∷ 1 ∷ 2 ∷ 3 ∷ 4 ∷ []; complaints = 0 })
unfolding sender_loop
sender_run = refl

-- a message that is lost is noticed
lost_run :
    receiver 5 (0 ∷ 1 ∷ 3 ∷ 4 ∷ [])
    ≡ done (record { total_samples = 5; complaints = 1; later = [] })
unfolding receiver receiver_loop
lost_run = refl

receiver-sender_example :
    (s : Sends) × (sender_loop (λ w. w) 6 5 0 ≡ done s)
    × (s.complaints ≡ 0)
    × (receiver 5 s.w0s ≡ done (record { total_samples = 5; complaints = 0; later = [] }))
    × (count : ℕ) × (cs_receiver 5 s.w0s ≡ done (count, []))
    × (((5 < 2 ^ 30) × (count ≡ 2 * 5)) ⊎ ((2 ^ 30 ≤ 5) × (count ≡ 2 * 5 + (2 ^ 64 - 2 ^ 32))))
receiver-sender_example =
    receiver-sender (λ w. w) (λ w. refl) 5 6 (omega arith) (omega arith) (omega arith)

abbrev free_chunk : List ℕ
free_chunk = 9 ∷ 9 ∷ 9 ∷ 0 ∷ []

free_chunk-IsFree : IsFree 4 free_chunk
unfolding chunk_state
free_chunk-IsFree = record { size = refl; free = refl }
