-- ===== src/BigMessage/Calls.antt =====
-- `ssmp_send_big_platf` and `ssmp_recv_from_big_platf` as the ports of src/platform have them, each
-- with its loops on `state`.
pub mod Rounds
pub mod Duet
pub mod Sending
pub mod Receiving
mod Tests
use ssmp.Base.{
  ℕ, zero, suc, ◌+◌, ◌/◌, ◌%◌, ◌≡◌, refl, List, [], ◌∷◌, ◌++◌, take, drop, replicate, Option, none,
  some, if◌then◌else◌, ◌==◌, arith, append-nil, ap, ◌∙◌, ite,
}
use ssmp.Base.Family.{update}
use ssmp.Base.Outcome.{Outcome, done, ◌>>=◌}
use ssmp.Poll.{Env, await}
use ssmp.BigMessage.{chunk_state, set_chunk_state, put_block, sizes}

-- `ssmp_chunk_buf`: the chunk of each process
abbrev pub Chunks : Type 0
Chunks = ℕ → List ℕ

module _ (c : ℕ) {P : Type 0} where
  -- `!ssmp_chunk_buf[id]->state`
  unfoldable pub is_clear : ℕ → Chunks × P → Option (Chunks × P)
  is_clear id s = if chunk_state c (s.0 id) == 0 then some s else none

  unfoldable pub is_raised : ℕ → Chunks × P → Option (Chunks × P)
  is_raised from s = if chunk_state c (s.0 from) == 0 then none else some s

-- `c` is SSMP_CHUNK_SIZE, `P` what else the other processes change, `env r` what they do during the
-- loop on `state` of round `r`, and `fuel` bounds each such loop.
module _ (c : ℕ) {P : Type 0} (env : ℕ → Env (Chunks × P)) (fuel : ℕ) where
  -- one round of the sender, which copies `n` bytes
  unfoldable pub send_round : (id n r : ℕ) → List ℕ → Chunks × P → Outcome (Chunks × P)
  send_round id n r bytes s = do
    (chunks, p) ← await (env r) (is_clear c id) fuel 0 s
    done (update chunks id (set_chunk_state c 1 (put_block c n (chunks id) bytes)), p)

  -- `while (num_chunks--)`: the bytes that are left, and the chunks
  unfoldable pub send_chunks :
      (id num_chunks r : ℕ) → List ℕ → Chunks × P → Outcome (List ℕ × (Chunks × P))
  send_chunks id zero r bytes s = done (bytes, s)
  send_chunks id (suc num_chunks) r bytes s = do
    s' ← send_round id c r bytes s
    send_chunks id num_chunks (suc r) (drop c bytes) s'

  -- `ssmp_send_big_platf`, where `id` is `ssmp_id_`; it does not read its argument `to`.
  unfoldable pub send_big : (id : ℕ) → List ℕ → (length : ℕ) → Chunks × P → Outcome (Chunks × P)
  send_big id bytes length s = do
    (rest, s') ← send_chunks id (length / c) 0 bytes s
    if length % c == 0 then done s' else send_round id (length % c) (length / c) rest s'

  -- one round of the receiver: what it has in `data` by now
  unfoldable pub recv_round : (from n r : ℕ) → List ℕ → Chunks × P → Outcome (List ℕ × (Chunks × P))
  recv_round from n r bytes s = do
    (chunks, p) ← await (env r) (is_raised c from) fuel 0 s
    done
        (bytes ++ take n (chunks from), (update chunks from (set_chunk_state c 0 (chunks from)), p))

  unfoldable pub recv_chunks :
      (from num_chunks r : ℕ) → List ℕ → Chunks × P → Outcome (List ℕ × (Chunks × P))
  recv_chunks from zero r bytes s = done (bytes, s)
  recv_chunks from (suc num_chunks) r bytes s = do
    (bytes', s') ← recv_round from c r bytes s
    recv_chunks from num_chunks (suc r) bytes' s'

  -- `ssmp_recv_from_big_platf`: what it writes to `data`, and the chunks
  unfoldable pub recv_from_big : (from length : ℕ) → Chunks × P → Outcome (List ℕ × (Chunks × P))
  recv_from_big from length s = do
    (bytes, s') ← recv_chunks from (length / c) 0 [] s
    if length % c == 0 then done (bytes, s') else recv_round from (length % c) (length / c) bytes s'

  -- The rounds of the two calls, given the sizes of the blocks.
  unfoldable pub send_rounds : ℕ → List ℕ → ℕ → List ℕ → Chunks × P → Outcome (Chunks × P)
  send_rounds id [] r bytes s = done s
  send_rounds id (n ∷ ns) r bytes s = do
    s' ← send_round id n r bytes s
    send_rounds id ns (suc r) (drop n bytes) s'

  unfoldable pub recv_rounds :
      ℕ → List ℕ → ℕ → List ℕ → Chunks × P → Outcome (List ℕ × (Chunks × P))
  recv_rounds from [] r bytes s = done (bytes, s)
  recv_rounds from (n ∷ ns) r bytes s = do
    (bytes', s') ← recv_round from n r bytes s
    recv_rounds from ns (suc r) bytes' s'
