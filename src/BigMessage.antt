-- ===== src/BigMessage.antt =====
-- Big messages: `ssmp_send_big_platf` and `ssmp_recv_from_big_platf` of src/platform, which the ports
-- share, over the chunk of the sender (`ssmp_chunk_t` of src/include/ssmp.h).
pub mod Lockstep
pub mod Calls
pub mod Corruption
pub mod Race
mod Tests
use ssmp.Base.{
  ℕ, zero, suc, ◌+◌, ◌-◌, ◌*◌, ◌/◌, ◌%◌, List, [], ◌∷◌, ◌++◌, get_or, set, take, drop, replicate,
  length, if◌then◌else◌, ◌==◌,
}
use ssmp.Base.Outcome.{Outcome, done, spinning, ◌>>=◌}

-- `c` is SSMP_CHUNK_SIZE. A chunk is its `c` bytes; the last of them is `state`.
module _ (c : ℕ) where
  unfoldable pub chunk_state : List ℕ → ℕ
  chunk_state chunk = get_or chunk (c - 1) 0

  unfoldable pub set_chunk_state : ℕ → List ℕ → List ℕ
  set_chunk_state v chunk = set chunk (c - 1) v

  -- How many bytes each `memcpy` moves: `num_chunks` times `c`, and `last_chunk` if it is not 0.
  unfoldable pub sizes : ℕ → List ℕ
  sizes length = replicate (length / c) c ++ (if length % c == 0 then [] else length % c ∷ [])

  -- `memcpy(chunk, data, n)`, with the bytes of the caller still to be sent
  unfoldable pub put_block : ℕ → List ℕ → List ℕ → List ℕ
  put_block n chunk todo = take n todo ++ drop n chunk

  -- One round of `ssmp_send_big_platf`: wait for `state` to be 0, copy `n` bytes, set `state` to 1.
  -- If it is not 0, then the round waits for the receiver.
  unfoldable pub send_block : ℕ → List ℕ → List ℕ → Outcome (List ℕ)
  unfolding chunk_state set_chunk_state put_block
  send_block n chunk todo =
      if chunk_state chunk == 0 then done (set_chunk_state 1 (put_block n chunk todo)) else spinning

  -- One round of `ssmp_recv_from_big_platf`: wait for `state` not to be 0, copy `n` bytes, set `state`
  -- to 0. The result is the bytes and the chunk.
  unfoldable pub recv_block : ℕ → List ℕ → Outcome (List ℕ × List ℕ)
  unfolding chunk_state set_chunk_state
  recv_block n chunk =
      if chunk_state chunk == 0 then spinning else done (take n chunk, set_chunk_state 0 chunk)

  -- The rounds of the two calls in turns, a round of the sender first.
  unfoldable pub rounds : List ℕ → List ℕ → List ℕ → Outcome (List ℕ × List ℕ)
  rounds [] chunk todo = done ([], chunk)
  rounds (n ∷ ns) chunk todo = do
    sent ← send_block n chunk todo
    (got, emptied) ← recv_block n sent
    (rest, last) ← rounds ns emptied (drop n todo)
    done (got ++ rest, last)

  -- `ssmp_send_big(to, data, length)` in one process and `ssmp_recv_from_big` in another, in turns:
  -- what the receiver has in the end, and the chunk. Neither call reads its argument `to`.
  unfoldable pub transfer : List ℕ → List ℕ → Outcome (List ℕ × List ℕ)
  unfolding rounds sizes
  transfer chunk message = rounds (sizes (length message)) chunk message
