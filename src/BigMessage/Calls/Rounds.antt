-- ===== src/BigMessage/Calls/Rounds.antt =====
-- `ssmp_send_big_platf` and `ssmp_recv_from_big_platf` of src/platform as sequences of rounds.
use ssmp.Base.{
  ℕ, zero, suc, ◌+◌, ◌/◌, ◌%◌, ◌≡◌, refl, List, [], ◌∷◌, ◌++◌, replicate, drop, if◌then◌else◌, ◌==◌,
  arith, ap, ◌∙◌, sym, false,
}
use ssmp.Base.Outcome.{Outcome, done, fault, exited, spinning, ◌>>=◌, >>=_assoc, >>=_cong}
use ssmp.Poll.{Env}
use ssmp.BigMessage.{sizes}
use ssmp.BigMessage.Calls.{
  Chunks, send_round, send_chunks, send_big, send_rounds, recv_round, recv_chunks, recv_from_big,
  recv_rounds,
}

module _ (c : ℕ) {P : Type 0} (env : ℕ → Env (Chunks × P)) (fuel : ℕ) where
  -- what the sender does after its loop over the whole chunks
  abbrev send_last : (id n r : ℕ) → List ℕ × (Chunks × P) → Outcome (Chunks × P)
  send_last id n r x = if n == 0 then done x.1 else send_round c env fuel id n r x.0 x.1

  abbrev recv_last : (from n r : ℕ) → List ℕ × (Chunks × P) → Outcome (List ℕ × (Chunks × P))
  recv_last from n r x = if n == 0 then done (x.0, x.1) else recv_round c env fuel from n r x.0 x.1

  abbrev blocks : (q n : ℕ) → List ℕ
  blocks q n = replicate q c ++ (if n == 0 then [] else n ∷ [])

  >>=_done {ℓ} : {A : Type ℓ} (m : Outcome A) → (m >>= done) ≡ m
  >>=_done (done a) = refl
  >>=_done fault = refl
  >>=_done (exited n) = refl
  >>=_done spinning = refl

  send_chunks-rounds :
      (id q n r : ℕ) (bytes : List ℕ) (s : Chunks × P)
      → (send_chunks c env fuel id q r bytes s >>= send_last id n (r + q))
        ≡ send_rounds c env fuel id (blocks q n) r bytes s
  unfolding send_chunks send_rounds
  send_chunks-rounds id zero zero r bytes s = refl
  send_chunks-rounds id zero (suc n) r bytes s =
      let here : r + 0 ≡ r = omega arith in
      let more : (suc n == 0) ≡ false = ground arith in
      rw (here, more) (sym (>>=_done (send_round c env fuel id (suc n) r bytes s)))
  send_chunks-rounds id (suc q) n r bytes s =
      >>=_assoc (send_round c env fuel id c r bytes s)
        (send_chunks c env fuel id q (suc r) (drop c bytes)) (send_last id n (r + suc q))
      ∙ >>=_cong (send_round c env fuel id c r bytes s) (λ s'.
        let there : r + suc q ≡ suc r + q = omega arith in
        ap (λ k. send_chunks c env fuel id q (suc r) (drop c bytes) s' >>= send_last id n k) there
        ∙ send_chunks-rounds id q n (suc r) (drop c bytes) s')

  recv_chunks-rounds :
      (from q n r : ℕ) (bytes : List ℕ) (s : Chunks × P)
      → (recv_chunks c env fuel from q r bytes s >>= recv_last from n (r + q))
        ≡ recv_rounds c env fuel from (blocks q n) r bytes s
  unfolding recv_chunks recv_rounds
  recv_chunks-rounds from zero zero r bytes s = refl
  recv_chunks-rounds from zero (suc n) r bytes s =
      let here : r + 0 ≡ r = omega arith in
      let more : (suc n == 0) ≡ false = ground arith in
      rw (here, more) (sym (>>=_done (recv_round c env fuel from (suc n) r bytes s)))
  recv_chunks-rounds from (suc q) n r bytes s =
      >>=_assoc (recv_round c env fuel from c r bytes s)
        (λ x. recv_chunks c env fuel from q (suc r) x.0 x.1) (recv_last from n (r + suc q))
      ∙ >>=_cong (recv_round c env fuel from c r bytes s) (λ x.
        let there : r + suc q ≡ suc r + q = omega arith in
        ap (λ k. recv_chunks c env fuel from q (suc r) x.0 x.1 >>= recv_last from n k) there
        ∙ recv_chunks-rounds from q n (suc r) x.0 x.1)

  -- `ssmp_send_big_platf` copies the blocks of `sizes`, one in each round.
  pub send_big-send_rounds :
      (id len : ℕ) (bytes : List ℕ) (s : Chunks × P)
      → send_big c env fuel id bytes len s ≡ send_rounds c env fuel id (sizes c len) 0 bytes s
  unfolding send_big sizes
  send_big-send_rounds id len bytes s =
      let none_yet : len / c ≡ 0 + len / c = omega arith in
      ap (λ k. send_chunks c env fuel id (len / c) 0 bytes s >>= send_last id (len % c) k) none_yet
      ∙ send_chunks-rounds id (len / c) (len % c) 0 bytes s

  pub recv_from_big-recv_rounds :
      (from len : ℕ) (s : Chunks × P)
      → recv_from_big c env fuel from len s ≡ recv_rounds c env fuel from (sizes c len) 0 [] s
  unfolding recv_from_big sizes
  recv_from_big-recv_rounds from len s =
      let none_yet : len / c ≡ 0 + len / c = omega arith in
      ap (λ k. recv_chunks c env fuel from (len / c) 0 [] s >>= recv_last from (len % c) k) none_yet
      ∙ recv_chunks-rounds from (len / c) (len % c) 0 [] s
