-- ===== src/BigMessage/Calls/Receiving.antt =====
-- `ssmp_recv_from_big_platf` of src/platform with a sender at the other end.
use ssmp.Base.{
  ℕ, suc, ◌-◌, ◌≤◌, ◌<◌, ◌≡◌, ◌≢◌, inl, inr, refl, arith, ◌∙◌, sym, List, [], ◌∷◌, ◌++◌, length,
  get_or, set, take, drop, append_assoc, append-nil, some, length-drop, ℕ_discrete, subst,
}
use ssmp.Base.Family.{update, update_self, update-update}
use ssmp.Base.Outcome.{done}
use ssmp.Poll.{Env, await}
use ssmp.Poll.Await.{await_change}
use ssmp.BigMessage.{chunk_state, set_chunk_state, sizes}
use ssmp.BigMessage.Lockstep.{received, IsFree, Fits, emptied-IsFree, sends, raised, arrives}
use ssmp.BigMessage.Corruption.{arriving, received_sizes}
use ssmp.BigMessage.Calls.{Chunks, is_raised, recv_round, recv_from_big, recv_rounds}
use ssmp.BigMessage.Calls.Rounds.{recv_from_big-recv_rounds}
use ssmp.BigMessage.Calls.Duet.{Other, produce, other, produce_raised}

module _ (c : ℕ) (from : ℕ) (delay : ℕ → ℕ) (fuel : ℕ) (pos : 0 < c)
    (soon : (r : ℕ) → delay r < fuel) where
  abbrev env : ℕ → Env (Chunks × Other)
  env = other c from (produce c from) delay

  waits_raised :
      (r : ℕ) (s s' : Chunks × Other)
      → produce c from s ≡ s'
      → chunk_state c (s'.0 from) ≢ 0
      → await (env r) (is_raised c from) fuel 0 s ≡ done s'
  unfolding is_raised
  waits_raised r s s' e full =
      let after_it : is_raised c from (produce c from s) ≡ some s' = rw e (ground (arith, full)) in
      elim (ℕ_discrete (chunk_state c (s.0 from)) 0) [
        | yes clear ↦
            await_change (produce c from) _ (delay r) fuel 0 s s' (omega arith)
              (omega (arith, soon r)) (inl (ground (arith, clear))) after_it
        | no up ↦
            await_change (produce c from) _ (delay r) fuel 0 s s' (omega arith)
              (omega (arith, soon r)) (inr (produce_raised c from s up)) after_it
      ]

  module _ (n : ℕ) (ns todo : List ℕ) (chunks : Chunks) (f : IsFree c (chunks from)) (le : n ≤ c)
      (enough : n ≤ length todo) where
    abbrev filled : List ℕ
    filled = set (take n todo ++ drop n (chunks from)) (c - 1) 1

    produces :
        produce c from (chunks, (n ∷ ns, todo)) ≡ (update chunks from filled, (ns, drop n todo))
    unfolding produce
    produces = rw (sends c pos n (chunks from) todo f le enough) refl

    filled_raised : chunk_state c (update chunks from filled from) ≢ 0
    unfolding chunk_state
    filled_raised =
        let up : get_or filled (c - 1) 0 ≡ 1 = raised c pos n (chunks from) todo f le enough in
        rw (update_self chunks from filled, up) (omega arith)

    recv_round_lem :
        (r : ℕ) (got : List ℕ)
        → recv_round c env fuel from n r got (chunks, (n ∷ ns, todo))
          ≡ done (
            got ++ set (take n todo) (c - 1) 1,
            (update chunks from (set filled (c - 1) 0), (ns, drop n todo)),
          )
    unfolding recv_round set_chunk_state
    recv_round_lem r got =
        rw
          (
            waits_raised r (chunks, (n ∷ ns, todo)) _ produces filled_raised,
            update_self chunks from filled,
            arrives c pos n (chunks from) todo f le enough,
            update-update chunks from filled (set filled (c - 1) 0),
          )
          refl

  recv_rounds_lem :
      (ns : List ℕ) (r : ℕ) (todo got : List ℕ) (chunks : Chunks)
      → IsFree c (chunks from)
      → Fits c ns (length todo)
      → (last : Chunks) × (left : List ℕ) × (recv_rounds c env fuel from ns r got
            (chunks, (ns, todo))
          ≡ done (got ++ received c ns todo, (last, ([], left))))
        × IsFree c (last from)
  unfolding recv_rounds received
  recv_rounds_lem [] r todo got chunks f fits = (chunks, todo, rw (append-nil got) refl, f)
  recv_rounds_lem (n ∷ ns) r todo got chunks f fits =
      let emptied : List ℕ = set (filled n ns todo chunks f fits.0 fits.1) (c - 1) 0 in
      let free : IsFree c (update chunks from emptied from) =
        subst (IsFree c) (sym (update_self chunks from emptied))
          (emptied-IsFree c pos n (chunks from) todo f fits.0 fits.1) in
      let (last, left, ret, free') =
        recv_rounds_lem ns (suc r) (drop n todo) (got ++ set (take n todo) (c - 1) 1)
          (update chunks from emptied) free (rw (length-drop n todo) fits.2) in
      (
        last,
        left,
        rw
            (
              recv_round_lem n ns todo chunks f fits.0 fits.1 r got,
              sym (append_assoc got (set (take n todo) (c - 1) 1) (received c ns (drop n todo))),
            )
            ret,
        free',
      )

  -- For chunks of `c` > 0 bytes: if the sender's chunk is free, and the sender has its rounds for
  -- the same length before it and does each at some look of the receiver within the fuel, then
  -- `ssmp_recv_from_big` returns as many bytes as were sent, the last of each whole chunk as 1 and
  -- all others as they were, the sender has no round left, and the chunk is free again.
  pub recv_from_big_lem :
      (message : List ℕ) (chunks : Chunks)
      → IsFree c (chunks from)
      → (got : List ℕ) × (last : Chunks) × (left : List ℕ) × (recv_from_big c env fuel from
            (length message)
            (chunks, (sizes c (length message), message))
          ≡ done (got, (last, ([], left))))
        × IsFree c (last from)
        × (length got ≡ length message)
        × ((i : ℕ) → i < length message → get_or got i 0 ≡ arriving c message i)
  recv_from_big_lem message chunks f =
      let ns : List ℕ = sizes c (length message) in
      let (fits, len, at) = received_sizes c pos message in
      let (last, left, ret, free) = recv_rounds_lem ns 0 message [] chunks f fits in
      (
        received c ns message,
        last,
        left,
        recv_from_big-recv_rounds c env fuel from (length message) (chunks, (ns, message)) ∙ ret,
        free,
        len,
        at,
      )
