-- ===== src/BigMessage/Calls/Duet.antt =====
-- `ssmp_send_big_platf` of src/platform with a receiver, and `ssmp_recv_from_big_platf` with a sender,
-- that take as long as they like for each of their rounds.
use ssmp.Base.{ℕ, ◌≡◌, ◌≢◌, refl, arith, List, [], ◌∷◌, ◌++◌, drop, if◌then◌else◌, ◌==◌}
use ssmp.Base.Family.{update}
use ssmp.Base.Outcome.{Outcome, done, fault, exited, spinning}
use ssmp.Poll.{Env}
use ssmp.BigMessage.{chunk_state, send_block, recv_block}
use ssmp.BigMessage.Calls.{Chunks}

-- The process at the other end: the sizes of the blocks that it has yet to receive or to send, and
-- what it has received or has yet to send.
abbrev pub Other : Type 0
Other = List ℕ × List ℕ

module _ (c : ℕ) (id : ℕ) where
  abbrev take_block : ℕ → List ℕ → Chunks × Other → Outcome (List ℕ × List ℕ) → Chunks × Other
  take_block n ns s (done (bytes, chunk)) = (update s.0 id chunk, (ns, s.1.1 ++ bytes))
  take_block n ns s fault = s
  take_block n ns s (exited status) = s
  take_block n ns s spinning = s

  -- the receiver's next round on the chunk of process `id`, if it can go on
  unfoldable pub consume : Chunks × Other → Chunks × Other
  consume s = elim s.1.0 [ [] ↦ s | n ∷ ns ↦ take_block n ns s (recv_block c n (s.0 id)) ]

  abbrev give_block : ℕ → List ℕ → Chunks × Other → Outcome (List ℕ) → Chunks × Other
  give_block n ns s (done chunk) = (update s.0 id chunk, (ns, drop n s.1.1))
  give_block n ns s fault = s
  give_block n ns s (exited status) = s
  give_block n ns s spinning = s

  -- the sender's next round on its chunk, if it can go on
  unfoldable pub produce : Chunks × Other → Chunks × Other
  produce s = elim s.1.0 [ [] ↦ s | n ∷ ns ↦ give_block n ns s (send_block c n (s.0 id) s.1.1) ]

  -- the other process, which does its round at the look `delay r` of the wait in round `r`
  abbrev pub other : (Chunks × Other → Chunks × Other) → (ℕ → ℕ) → ℕ → Env (Chunks × Other)
  other step delay r t s = if t == delay r then step s else s

  pub consume_clear : (s : Chunks × Other) → chunk_state c (s.0 id) ≡ 0 → consume s ≡ s
  unfolding consume recv_block
  consume_clear (chunks, ([], got)) e = refl
  consume_clear (chunks, (n ∷ ns, got)) e = ground (arith, e)

  pub produce_raised : (s : Chunks × Other) → chunk_state c (s.0 id) ≢ 0 → produce s ≡ s
  unfolding produce send_block
  produce_raised (chunks, ([], todo)) ne = refl
  produce_raised (chunks, (n ∷ ns, todo)) ne = ground (arith, ne)
