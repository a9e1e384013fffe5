-- ===== src/BigMessage/Calls/Sending.antt =====
-- `ssmp_send_big_platf` of src/platform with a receiver at the other end.
use ssmp.Base.{
  ℕ, suc, ◌-◌, ◌≤◌, ◌<◌, ◌≡◌, inl, inr, refl, arith, ◌∙◌, sym, List, [], ◌∷◌, ◌++◌, length, get_or,
  set, take, drop, append_assoc, append-nil, some, length-drop, ℕ_discrete, subst,
}
use ssmp.Base.Family.{update, update_self, update-update}
use ssmp.Base.Outcome.{done}
use ssmp.Poll.{Env, await}
use ssmp.Poll.Await.{await_change}
use ssmp.BigMessage.{chunk_state, set_chunk_state, put_block, sizes}
use ssmp.BigMessage.Lockstep.{received, IsFree, Fits, emptied-IsFree, receives, raised}
use ssmp.BigMessage.Corruption.{arriving, received_sizes}
use ssmp.BigMessage.Calls.{Chunks, is_clear, send_round, send_big, send_rounds}
use ssmp.BigMessage.Calls.Rounds.{send_big-send_rounds}
use ssmp.BigMessage.Calls.Duet.{Other, consume, other, consume_clear}

module _ (c : ℕ) (id : ℕ) (delay : ℕ → ℕ) (fuel : ℕ) (pos : 0 < c)
    (soon : (r : ℕ) → delay r < fuel) where
  abbrev env : ℕ → Env (Chunks × Other)
  env = other c id (consume c id) delay

  waits_clear :
      (r : ℕ) (s s' : Chunks × Other)
      → consume c id s ≡ s'
      → chunk_state c (s'.0 id) ≡ 0
      → await (env r) (is_clear c id) fuel 0 s ≡ done s'
  unfolding is_clear
  waits_clear r s s' e free =
      let after_it : is_clear c id (consume c id s) ≡ some s' = rw e (rw free refl) in
      elim (ℕ_discrete (chunk_state c (s.0 id)) 0) [
        | yes clear ↦
            await_change (consume c id) _ (delay r) fuel 0 s s' (omega arith)
              (omega (arith, soon r)) (inr (consume_clear c id s clear)) after_it
        | no raised ↦
            await_change (consume c id) _ (delay r) fuel 0 s s' (omega arith)
              (omega (arith, soon r)) (inl (ground (arith, raised))) after_it
      ]

  -- the chunk with the block of a round
  abbrev filled : ℕ → List ℕ → List ℕ → List ℕ
  filled n chunk todo = set (take n todo ++ drop n chunk) (c - 1) 1

  send_round_lem :
      (n r : ℕ) (todo : List ℕ) (s : Chunks × Other) (chunks : Chunks) (p : Other)
      → consume c id s ≡ (chunks, p)
      → chunk_state c (chunks id) ≡ 0
      → send_round c env fuel id n r todo s ≡ done (update chunks id (filled n (chunks id) todo), p)
  unfolding send_round set_chunk_state put_block
  send_round_lem n r todo s chunks p e free = rw (waits_clear r s (chunks, p) e free) refl

  consumes :
      (n : ℕ) (ns todo got : List ℕ) (chunks : Chunks)
      → IsFree c (chunks id)
      → n ≤ c
      → n ≤ length todo
      → consume c id (update chunks id (filled n (chunks id) todo), (n ∷ ns, got)) ≡ (
        update chunks id (set (filled n (chunks id) todo) (c - 1) 0),
        (ns, got ++ set (take n todo) (c - 1) 1),
      )
  unfolding consume
  consumes n ns todo got chunks f le enough =
      rw
        (
          update_self chunks id (filled n (chunks id) todo),
          receives c pos n (chunks id) todo f le enough,
          update-update chunks id (filled n (chunks id) todo)
              (set (filled n (chunks id) todo) (c - 1) 0),
        )
        refl

  send_rounds_lem :
      (ns : List ℕ) (r : ℕ) (todo got : List ℕ) (s : Chunks × Other) (chunks : Chunks)
      → consume c id s ≡ (chunks, (ns, got))
      → IsFree c (chunks id)
      → Fits c ns (length todo)
      → (s' : Chunks × Other) × (last : Chunks) × (send_rounds c env fuel id ns r todo s ≡ done s')
        × (consume c id s' ≡ (last, ([], got ++ received c ns todo)))
        × IsFree c (last id)
  unfolding send_rounds received
  send_rounds_lem [] r todo got s chunks e f fits = (s, chunks, refl, rw (append-nil got) e, f)
  send_rounds_lem (n ∷ ns) r todo got s chunks e f fits =
      let emptied : List ℕ = set (filled n (chunks id) todo) (c - 1) 0 in
      let free : IsFree c (update chunks id emptied id) =
        subst (IsFree c) (sym (update_self chunks id emptied))
          (emptied-IsFree c pos n (chunks id) todo f fits.0 fits.1) in
      let (s', last, ret, end, free') =
        send_rounds_lem ns (suc r) (drop n todo) (got ++ set (take n todo) (c - 1) 1) _ _
          (consumes n ns todo got chunks f fits.0 fits.1) free (rw (length-drop n todo) fits.2) in
      (
        s',
        last,
        rw (send_round_lem n r todo s chunks (n ∷ ns, got) e f.free) ret,
        rw (sym (append_assoc got (set (take n todo) (c - 1) 1) (received c ns (drop n todo)))) end,
        free',
      )

  -- For chunks of `c` > 0 bytes: if the sender's chunk is free, and the receiver has its rounds
  -- for the same length before it and does each at some look of the sender within the fuel, then
  -- `ssmp_send_big` returns, and after the receiver's next round it has received as many bytes as
  -- were sent, the last of each whole chunk as 1 and all others as they were, and the chunk is
  -- free again.
  pub send_big_lem :
      (message : List ℕ) (chunks : Chunks)
      → IsFree c (chunks id)
      → (s' : Chunks × Other) × (last : Chunks) × (got : List ℕ) × (send_big c env fuel id message
            (length message)
            (chunks, (sizes c (length message), []))
          ≡ done s')
        × (consume c id s' ≡ (last, ([], got)))
        × IsFree c (last id)
        × (length got ≡ length message)
        × ((i : ℕ) → i < length message → get_or got i 0 ≡ arriving c message i)
  send_big_lem message chunks f =
      let ns : List ℕ = sizes c (length message) in
      let (fits, len, at) = received_sizes c pos message in
      let s : Chunks × Other = (chunks, (ns, [])) in
      let (s', last, ret, end, free) =
        send_rounds_lem ns 0 message [] s chunks (consume_clear c id s f.free) f fits in
      (
        s',
        last,
        received c ns message,
        send_big-send_rounds c env fuel id (length message) message s ∙ ret,
        end,
        free,
        len,
        at,
      )
