-- ===== src/BigMessage/Race/Order.antt =====
-- The rounds on a chunk whose `state` byte no message raises.
use ssmp.Base.{ℕ, ◌+◌, ◌-◌, ◌≤◌, ◌<◌, ◌≡◌, ◌≢◌, refl, arith, ap, if◌then◌else◌, ◌==◌}
use ssmp.Base.Family.{update}
use ssmp.BigMessage.Race.{
  Round, at_state, at_byte, Pair, Step, see_clear, put_byte, raise_state, see_raised, get_byte,
  clear_state, fresh_pair, Reach, fresh, after,
}

abbrev copied : Round → ℕ
copied at_state = 0
copied (at_byte k) = k

abbrev inside : Round → ℕ
inside at_state = 0
inside (at_byte k) = 1

inside-copied : (p : Round) (j : ℕ) → j < copied p → inside p ≡ 1
inside-copied at_state j lt = absurd (omega arith)
inside-copied (at_byte k) j lt = refl

-- The sizes and bytes of blocks that fit the chunk, and have 0 where `state` stands.
pub record IsQuiet (c : ℕ) (size : ℕ → ℕ) (msg : ℕ → ℕ → ℕ) : Type 0 where
  pub nonempty : 0 < c
  pub fits : (k : ℕ) → size k ≤ c
  pub quiet : (k : ℕ) → size k ≡ c → msg k (c - 1) ≡ 0

pub record Inv (c : ℕ) (size : ℕ → ℕ) (msg : ℕ → ℕ → ℕ) (s : Pair) : Type 0 where
  pub bit : s.bytes (c - 1) ≤ 1
  pub counts : s.sent ≡ s.received + s.bytes (c - 1)
  pub sender_alone : s.bytes (c - 1) + inside s.sender ≤ 1
  pub receiver_alone : inside s.receiver ≤ s.bytes (c - 1)
  pub put_so_far : (j : ℕ) → j < copied s.sender → j + 1 < c → s.bytes j ≡ msg s.sent j
  pub got_so_far : (j : ℕ) → j < copied s.receiver → s.incoming j ≡ s.bytes j
  pub full :
      (j : ℕ) → s.bytes (c - 1) ≡ 1 → j < size s.received → j + 1 < c → s.bytes j ≡ msg s.received j
  pub history :
      (i j : ℕ) → i < s.received → j < size i → s.got i j ≡ (if j + 1 == c then 1 else msg i j)

module _ (c : ℕ) (size : ℕ → ℕ) (msg : ℕ → ℕ → ℕ) (q : IsQuiet c size msg) where
  abbrev last : ℕ
  last = c - 1

  fresh-Inv : (junk : ℕ → ℕ) → Inv c size msg (fresh_pair c size msg junk)
  fresh-Inv junk = record {
    bit = ground arith;
    counts = ground arith;
    sender_alone = ground arith;
    receiver_alone = omega arith;
    put_so_far = λ j lt. absurd (omega arith);
    got_so_far = λ j lt. absurd (omega arith);
    full = λ j e. absurd (ground arith);
    history = λ i j lt. absurd (omega arith);
  }

  module _ (s : Pair) (inv : Inv c size msg s) where
    see_clear-Inv : s.bytes last ≡ 0 → Inv c size msg (record s { sender = at_byte 0 })
    see_clear-Inv e = record {
      bit = inv.bit;
      counts = inv.counts;
      sender_alone = omega arith;
      receiver_alone = inv.receiver_alone;
      put_so_far = λ j lt. absurd (omega arith);
      got_so_far = inv.got_so_far;
      full = inv.full;
      history = inv.history;
    }

    module _ {k : ℕ} (at : s.sender ≡ at_byte k) where
      clear : s.bytes last ≡ 0
      clear = omega (arith, inv.sender_alone, ap inside at)

      none_receives : (j : ℕ) → j < copied s.receiver → 0 < 0
      none_receives j lt = omega (arith, clear, inv.receiver_alone, inside-copied s.receiver j lt)

      put_byte-Inv :
          k < size s.sent
          → Inv c size msg
              (record s { bytes = update s.bytes k (msg s.sent k); sender = at_byte (k + 1) })
      put_byte-Inv lt =
          let still : update s.bytes k (msg s.sent k) last ≡ 0 =
            ground (arith, clear, q.fits s.sent, q.quiet s.sent) in
          record {
            bit = omega (arith, still);
            counts = omega (arith, still, clear, inv.counts);
            sender_alone = omega (arith, still);
            receiver_alone = omega (arith, still, clear, inv.receiver_alone);
            put_so_far = λ j below inner.
                ground (arith, inv.put_so_far j, ap copied at, ap (msg s.sent) {x = k} {y = j});
            got_so_far = λ j below. absurd (omega (arith, none_receives j below));
            full = λ j e. absurd (omega (arith, still));
            history = inv.history;
          }

      raise_state-Inv :
          k ≡ size s.sent
          → Inv c size msg
              (record s { bytes = update s.bytes last 1; sender = at_state; sent = s.sent + 1 })
      raise_state-Inv all =
          let up : update s.bytes last 1 last ≡ 1 = ground arith in
          let same : s.sent ≡ s.received = omega (arith, clear, inv.counts) in
          record {
            bit = omega (arith, up);
            counts = omega (arith, up, same);
            sender_alone = omega (arith, up);
            receiver_alone = omega (arith, up, clear, inv.receiver_alone);
            put_so_far = λ j below. absurd (omega arith);
            got_so_far = λ j below. absurd (omega (arith, none_receives j below));
            full = λ j e below inner.
                ground
                  (arith, inv.put_so_far j, ap copied at, ap (λ n. msg n j) same, ap size same);
            history = inv.history;
          }

    see_raised-Inv : s.bytes last ≢ 0 → Inv c size msg (record s { receiver = at_byte 0 })
    see_raised-Inv ne = record {
      bit = inv.bit;
      counts = inv.counts;
      sender_alone = inv.sender_alone;
      receiver_alone = omega arith;
      put_so_far = inv.put_so_far;
      got_so_far = λ j lt. absurd (omega arith);
      full = inv.full;
      history = inv.history;
    }

    module _ {k : ℕ} (at : s.receiver ≡ at_byte k) where
      raised : s.bytes last ≡ 1
      raised = omega (arith, inv.receiver_alone, inv.bit, ap inside at)

      get_byte-Inv :
          Inv c size msg
            (record s { incoming = update s.incoming k (s.bytes k); receiver = at_byte (k + 1) })
      get_byte-Inv = record {
        bit = inv.bit;
        counts = inv.counts;
        sender_alone = inv.sender_alone;
        receiver_alone = omega (arith, raised);
        put_so_far = inv.put_so_far;
        got_so_far =
            λ j lt. ground (arith, inv.got_so_far j, ap copied at, ap s.bytes {x = k} {y = j});
        full = inv.full;
        history = inv.history;
      }

      none_sends : (j : ℕ) → j < copied s.sender → 0 < 0
      none_sends j lt = omega (arith, raised, inv.sender_alone, inside-copied s.sender j lt)

      -- the block that is received whole
      whole :
          k ≡ size s.received
          → (j : ℕ) → j < size s.received
          → s.incoming j ≡ (if j + 1 == c then 1 else msg s.received j)
      whole all j lt = ground (
        arith,
        raised,
        q.fits s.received,
        inv.got_so_far j,
        inv.full j,
        ap copied at,
        ap s.bytes {x = j} {y = last},
      )

      clear_state-Inv :
          k ≡ size s.received
          → Inv c size msg (record s {
            bytes = update s.bytes last 0;
            receiver = at_state;
            received = s.received + 1;
            got = update s.got s.received s.incoming;
          })
      clear_state-Inv all =
          let down : update s.bytes last 0 last ≡ 0 = ground arith in
          record {
            bit = omega (arith, down);
            counts = omega (arith, down, raised, inv.counts);
            sender_alone = omega (arith, down, raised, inv.sender_alone);
            receiver_alone = omega arith;
            put_so_far = λ j below. absurd (omega (arith, none_sends j below));
            got_so_far = λ j below. absurd (omega arith);
            full = λ j e. absurd (omega (arith, down));
            history = λ i j lt below. ground (
              arith,
              inv.history i j,
              whole all j,
              ap (λ p. msg p j) {x = s.received} {y = i},
              ap size {x = s.received} {y = i},
            );
          }

  Step-Inv : (s t : Pair) → Step c size msg s t → Inv c size msg s → Inv c size msg t
  Step-Inv s t (see_clear at e) inv = see_clear-Inv s inv e
  Step-Inv s t (put_byte at lt) inv = put_byte-Inv s inv at lt
  Step-Inv s t (raise_state at) inv = raise_state-Inv s inv at refl
  Step-Inv s t (see_raised at ne) inv = see_raised-Inv s inv ne
  Step-Inv s t (get_byte at lt) inv = get_byte-Inv s inv at
  Step-Inv s t (clear_state at) inv = clear_state-Inv s inv at refl

  Reach-Inv : (junk : ℕ → ℕ) (s : Pair) → Reach c size msg junk s → Inv c size msg s
  Reach-Inv junk s fresh = fresh-Inv junk
  Reach-Inv junk s (after r st) = Step-Inv _ s st (Reach-Inv junk _ r)

  -- For chunks of `c` > 0 bytes and blocks of at most `c` bytes, those of `c` bytes with 0 in the
  -- last: in every interleaving of the rounds of a sender and a receiver, from the free chunk on,
  -- as many blocks have been received as sent or one less, and the i-th block received has the
  -- bytes of the i-th block sent, but for the last byte of a whole chunk, which arrives as 1.
  pub blocks_in_order :
      {junk : ℕ → ℕ} {s : Pair}
      → Reach c size msg junk s
      → (s.received ≤ s.sent)
        × (s.sent ≤ s.received + 1)
        × ((i j : ℕ)
            → i < s.received
            → j < size i
            → s.got i j ≡ (if j + 1 == c then 1 else msg i j))
  blocks_in_order {junk} {s} r =
      let inv : Inv c size msg s = Reach-Inv junk s r in
      (omega (arith, inv.counts), omega (arith, inv.counts, inv.bit), inv.history)
