-- ===== src/Channel/Invariant.antt =====
-- What holds of a buffer and its two processes at every moment.
use ssmp.Base.{ℕ, ◌+◌, ◌≤◌, ◌<◌, ◌≡◌, refl, arith, ap, ◌∙◌}
use ssmp.Base.Family.{update}
use ssmp.Channel.{
  Dwords, Phase, idle, waiting, copying, Channel, Step, call_send, see_empty, put, set_messg,
  call_recv, see_messg, get, set_empty, fresh, Reach, start, next,
}

abbrev pub copied : Phase → ℕ
copied idle = 0
copied waiting = 0
copied (copying k) = k

abbrev pub is_copying : Phase → ℕ
is_copying idle = 0
is_copying waiting = 0
is_copying (copying k) = 1

pub record Inv (d : ℕ) (s : Channel) : Type 0 where
  pub bit : s.flag ≤ 1
  pub counts : s.sent ≡ s.received + s.flag
  pub sender_alone : s.flag + is_copying s.sender ≤ 1
  pub receiver_alone : is_copying s.receiver ≤ s.flag
  pub put_so_far : (j : ℕ) → j < copied s.sender → s.buf j ≡ s.outgoing j
  pub got_so_far : (j : ℕ) → j < copied s.receiver → s.incoming j ≡ s.buf j
  pub full : (j : ℕ) → s.flag ≡ 1 → j < d → s.buf j ≡ s.log s.received j
  pub history : (i j : ℕ) → i < s.received → j < d → s.got i j ≡ s.log i j

fresh-Inv : (d : ℕ) (junk : Dwords) → Inv d (fresh junk)
fresh-Inv d junk = record {
  bit = omega arith;
  counts = refl;
  sender_alone = omega arith;
  receiver_alone = omega arith;
  put_so_far = λ j lt. absurd (omega arith);
  got_so_far = λ j lt. absurd (omega arith);
  full = λ j e lt. absurd (omega arith);
  history = λ i j lt lt'. absurd (omega arith);
}

copied-is_copying : (p : Phase) (j : ℕ) → j < copied p → is_copying p ≡ 1
copied-is_copying idle j lt = absurd (omega arith)
copied-is_copying waiting j lt = absurd (omega arith)
copied-is_copying (copying k) j lt = refl

module _ (d : ℕ) (s : Channel) (inv : Inv d s) where
  call_send-Inv :
      (m : Dwords) → s.sender ≡ idle → Inv d (record s { sender = waiting; outgoing = m })
  call_send-Inv m at = record {
    bit = inv.bit;
    counts = inv.counts;
    sender_alone = ground (arith, inv.bit);
    receiver_alone = inv.receiver_alone;
    put_so_far = λ j below. absurd (omega arith);
    got_so_far = inv.got_so_far;
    full = inv.full;
    history = inv.history;
  }

  see_empty-Inv : s.flag ≡ 0 → Inv d (record s { sender = copying 0 })
  see_empty-Inv empty = record {
    bit = inv.bit;
    counts = inv.counts;
    sender_alone = omega arith;
    receiver_alone = inv.receiver_alone;
    put_so_far = λ j below. absurd (omega arith);
    got_so_far = inv.got_so_far;
    full = inv.full;
    history = inv.history;
  }

  module _ {k : ℕ} (at : s.sender ≡ copying k) where
    one_copies : is_copying s.sender ≡ 1
    one_copies = ap is_copying at

    k_copied : copied s.sender ≡ k
    k_copied = ap copied at

    none_receives : (j : ℕ) → j < copied s.receiver → 0 < 0
    none_receives j below = omega (
      arith,
      inv.receiver_alone,
      inv.sender_alone,
      one_copies,
      copied-is_copying s.receiver j below,
    )

    put-Inv : Inv d (record s { buf = update s.buf k (s.outgoing k); sender = copying (k + 1) })
    put-Inv = record {
      bit = inv.bit;
      counts = inv.counts;
      sender_alone = omega (arith, inv.sender_alone, one_copies);
      receiver_alone = inv.receiver_alone;
      put_so_far =
          λ j below. ground (arith, inv.put_so_far j, k_copied, ap s.outgoing {x = k} {y = j});
      got_so_far = λ j below. absurd (omega (arith, none_receives j below));
      full = λ j e below. absurd (omega (arith, inv.sender_alone, one_copies));
      history = inv.history;
    }

    set_messg-Inv :
        k ≡ d
        → Inv d (record s {
          flag = 1;
          sender = idle;
          sent = s.sent + 1;
          log = update s.log s.sent s.outgoing;
        })
    set_messg-Inv all = record {
      bit = omega arith;
      counts = omega (arith, inv.counts, inv.sender_alone, one_copies);
      sender_alone = omega arith;
      receiver_alone = omega (arith, inv.receiver_alone, inv.bit);
      put_so_far = λ j below. absurd (omega arith);
      got_so_far = λ j below. absurd (omega (arith, none_receives j below));
      full = λ j e below.
          ground (arith, inv.counts, inv.sender_alone, one_copies, k_copied, inv.put_so_far j);
      history = λ i j lt below. ground (arith, inv.counts, inv.history i j lt below);
    }

  call_recv-Inv : s.receiver ≡ idle → Inv d (record s { receiver = waiting })
  call_recv-Inv at = record {
    bit = inv.bit;
    counts = inv.counts;
    sender_alone = inv.sender_alone;
    receiver_alone = omega arith;
    put_so_far = inv.put_so_far;
    got_so_far = λ j below. absurd (omega arith);
    full = inv.full;
    history = inv.history;
  }

  see_messg-Inv : s.flag ≡ 1 → Inv d (record s { receiver = copying 0 })
  see_messg-Inv full = record {
    bit = inv.bit;
    counts = inv.counts;
    sender_alone = inv.sender_alone;
    receiver_alone = omega arith;
    put_so_far = inv.put_so_far;
    got_so_far = λ j below. absurd (omega arith);
    full = inv.full;
    history = inv.history;
  }

  module _ {k : ℕ} (at : s.receiver ≡ copying k) where
    one_receives : is_copying s.receiver ≡ 1
    one_receives = ap is_copying at

    k_received : copied s.receiver ≡ k
    k_received = ap copied at

    get-Inv :
        Inv d (record s { incoming = update s.incoming k (s.buf k); receiver = copying (k + 1) })
    get-Inv = record {
      bit = inv.bit;
      counts = inv.counts;
      sender_alone = inv.sender_alone;
      receiver_alone = omega (arith, inv.receiver_alone, one_receives);
      put_so_far = inv.put_so_far;
      got_so_far =
          λ j below. ground (arith, inv.got_so_far j, k_received, ap s.buf {x = k} {y = j});
      full = inv.full;
      history = inv.history;
    }

    whole : k ≡ d → (j : ℕ) → j < d → s.incoming j ≡ s.log s.received j
    whole all j below =
        inv.got_so_far j (omega (arith, k_received))
        ∙ inv.full j (omega (arith, inv.bit, inv.receiver_alone, one_receives)) below

    set_empty-Inv :
        k ≡ d
        → Inv d (record s {
          flag = 0;
          receiver = idle;
          received = s.received + 1;
          got = update s.got s.received s.incoming;
        })
    set_empty-Inv all = record {
      bit = omega arith;
      counts = omega (arith, inv.counts, inv.bit, inv.receiver_alone, one_receives);
      sender_alone = omega (arith, inv.sender_alone, inv.receiver_alone, one_receives);
      receiver_alone = omega arith;
      put_so_far = inv.put_so_far;
      got_so_far = λ j below. absurd (omega arith);
      full = λ j e below. absurd (omega arith);
      history = λ i j lt below.
          ground (
            arith,
            inv.history i j,
            whole all j below,
            ap (λ p. s.log p j) {x = s.received} {y = i},
          );
    }

Step-Inv : (d : ℕ) (s t : Channel) → Step d s t → Inv d s → Inv d t
Step-Inv d s t (call_send m at) inv = call_send-Inv d s inv m at
Step-Inv d s t (see_empty at e) inv = see_empty-Inv d s inv e
Step-Inv d s t (put at lt) inv = put-Inv d s inv at
Step-Inv d s t (set_messg at) inv = set_messg-Inv d s inv at refl
Step-Inv d s t (call_recv at) inv = call_recv-Inv d s inv at
Step-Inv d s t (see_messg at e) inv = see_messg-Inv d s inv e
Step-Inv d s t (get at lt) inv = get-Inv d s inv at
Step-Inv d s t (set_empty at) inv = set_empty-Inv d s inv at refl

pub Reach-Inv : (d : ℕ) (junk : Dwords) (s : Channel) → Reach d junk s → Inv d s
Reach-Inv d junk s start = fresh-Inv d junk
Reach-Inv d junk s (next r st) = Step-Inv d _ s st (Reach-Inv d junk _ r)
