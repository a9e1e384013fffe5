-- ===== src/BigMessage/Race/Twice.antt =====
-- What the rounds do to a block that raises `state` itself: the receiver need not wait until
-- `ssmp_send_big_platf` does.
use ssmp.Base.{ℕ, zero, suc, ◌+◌, ◌-◌, ◌≤◌, ◌<◌, ◌≡◌, ◌≢◌, refl, arith, ap, sym, ◌∙◌, subst}
use ssmp.Base.Family.{update}
use ssmp.BigMessage.Race.{
  at_state, at_byte, Pair, see_clear, put_byte, raise_state, see_raised, get_byte, clear_state,
  fresh_pair, Reach, fresh, after,
}

module _ (c : ℕ) (size : ℕ → ℕ) (msg : ℕ → ℕ → ℕ) (junk : ℕ → ℕ) where
  -- The sender copies `k` bytes.
  puts :
      (s : Pair)
      → Reach c size msg junk (record s { sender = at_byte 0 })
      → (k : ℕ) → k ≤ size s.sent
      → (b : ℕ → ℕ) × Reach c size msg junk (record s { bytes = b; sender = at_byte k })
        × ((j : ℕ) → j < k → b j ≡ msg s.sent j)
  puts s r zero le = (s.bytes, r, λ j lt. absurd (omega arith))
  puts s r (suc k) le =
      let (b, r', same) = puts s r k (omega arith) in
      let b' : ℕ → ℕ = update b k (msg s.sent k) in
      let next_byte : k + 1 ≡ suc k = omega arith in
      (
        b',
        subst (λ n. Reach c size msg junk (record s { bytes = b'; sender = at_byte n })) next_byte
            (after r' (put_byte refl (omega arith))),
        λ j lt. ground (arith, same j, ap (msg s.sent) {x = k} {y = j}),
      )

  -- The receiver copies `k` bytes.
  gets :
      (s : Pair)
      → Reach c size msg junk (record s { receiver = at_byte 0 })
      → (k : ℕ) → k ≤ size s.received
      → (b : ℕ → ℕ) × Reach c size msg junk (record s { incoming = b; receiver = at_byte k })
        × ((j : ℕ) → j < k → b j ≡ s.bytes j)
  gets s r zero le = (s.incoming, r, λ j lt. absurd (omega arith))
  gets s r (suc k) le =
      let (b, r', same) = gets s r k (omega arith) in
      let b' : ℕ → ℕ = update b k (s.bytes k) in
      let next_byte : k + 1 ≡ suc k = omega arith in
      (
        b',
        subst (λ n. Reach c size msg junk (record s { incoming = b'; receiver = at_byte n }))
            next_byte (after r' (get_byte refl (omega arith))),
        λ j lt. ground (arith, same j, ap s.bytes {x = k} {y = j}),
      )

  -- The receiver takes the block that stands in the chunk.
  takes :
      (s : Pair)
      → Reach c size msg junk (record s { receiver = at_state })
      → s.bytes (c - 1) ≢ 0
      → (b : ℕ → ℕ) × Reach c size msg junk (record s {
        bytes = update s.bytes (c - 1) 0;
        receiver = at_state;
        incoming = b;
        received = s.received + 1;
        got = update s.got s.received b;
      })
        × ((j : ℕ) → j < size s.received → b j ≡ s.bytes j)
  takes s r ne =
      let (b, r', same) = gets s (after r (see_raised refl ne)) (size s.received) (omega arith) in
      (b, after r' (clear_state refl), same)

  both_first :
      (b m m₂ : ℕ → ℕ) (g : ℕ → ℕ → ℕ)
      → 0 < c
      → ((j : ℕ) → j < c → b j ≡ msg 0 j)
      → ((j : ℕ) → j < c → m j ≡ b j)
      → ((j : ℕ) → j < c → m₂ j ≡ update (update b (c - 1) 0) (c - 1) 1 j)
      → (i j : ℕ) → i < 2
      → j + 1 < c
      → update (update g 0 m) 1 m₂ i j ≡ msg 0 j
  both_first b m m₂ g pos put same same₂ i j lt below = ground (arith, put j, same j, same₂ j)

  -- For chunks of `c` > 0 bytes, if the first two blocks are whole chunks and the first has a byte
  -- other than 0 in the last place, then some interleaving of the rounds has one block sent and two
  -- received, and both blocks received have the bytes of the first, but for the last byte.
  pub received_twice :
      0 < c
      → size 0 ≡ c
      → size 1 ≡ c
      → msg 0 (c - 1) ≢ 0
      → (s : Pair) × Reach c size msg junk s
        × (s.sent ≡ 1)
        × (s.received ≡ 2)
        × ((i j : ℕ) → i < 2 → j + 1 < c → s.got i j ≡ msg 0 j)
  received_twice pos first second ne =
      let s₀ : Pair = fresh_pair c size msg junk in
      let cleared : s₀.bytes (c - 1) ≡ 0 = ground arith in
      let (b, r₁, put) = puts s₀ (after fresh (see_clear refl cleared)) (size 0) (omega arith) in
      let s₁ : Pair = record s₀ { bytes = b; sender = at_byte (size 0) } in
      let up : b (c - 1) ≢ 0 = λ e. ne (sym (put (c - 1) (omega arith)) ∙ e) in
      let (m, r₂, same) = takes s₁ r₁ up in
      let b₂ : ℕ → ℕ = update (update b (c - 1) 0) (c - 1) 1 in
      let s₂ : Pair = record s₁ {
        bytes = b₂;
        sender = at_state;
        sent = 1;
        incoming = m;
        received = 1;
        got = update s₀.got 0 m;
      } in
      let up₂ : b₂ (c - 1) ≢ 0 = ground arith in
      let (m₂, r₃, same₂) = takes s₂ (after r₂ (raise_state refl)) up₂ in
      (
        _,
        r₃,
        refl,
        refl,
        both_first b m m₂ s₀.got pos (λ j lt. put j (omega arith)) (λ j lt. same j (omega arith))
            (λ j lt. same₂ j (omega arith)),
      )
