-- ===== src/Slot/Order.antt =====
-- Messages of src/platform/generic/ssmp_platf.c when `memcpy` stores the word with the state last.
use ssmp.Base.{ℕ, ◌+◌, ◌-◌, ◌≤◌, ◌<◌, ◌≡◌, arith, Bool, if◌then◌else◌, ◌∙◌}
use ssmp.Slot.{Slot, Reach}
use ssmp.Slot.Words.{with_state, seen_word_plain, seen_word_last}
use ssmp.Slot.Invariant.{Reach-Inv}
use ssmp.Slot.Invariant.Defs.{IsLast, Inv, holds_small}

-- For messages of `d` words, if `memcpy` stores every word and the one with the state last, with
-- USE_ATOMIC or without it: in every interleaving of a sender and a receiver, from the empty buffer
-- on, as many messages have been received as were made visible or one less. The i-th message that was
-- received has the words of the i-th message that was sent; only the state, in its last word, is the one
-- that the buffer had while it was copied: SSMP_BUF_LOCKD with USE_ATOMIC, and SSMP_BUF_MESSG without it.
pub messages_in_order :
    {atomic : Bool} {d : ℕ} {at junk : ℕ → ℕ} {s : Slot}
    → IsLast d at
    → Reach atomic d at junk s
    → (s.received ≤ s.sent)
      × (s.sent ≤ s.received + 1)
      × ((i j : ℕ) → i < s.received → j + 1 < d → s.got i j ≡ s.log i j)
      × ((i : ℕ)
          → i < s.received
          → s.got i (d - 1) ≡ with_state (if atomic then 2 else 1) (s.log i (d - 1)))
messages_in_order {atomic} {d} {at} {junk} {s} l r =
    let inv : Inv atomic d at s = Reach-Inv atomic d at l junk s r in
    let v : ℕ = if atomic then 2 else 1 in
    (
      omega (arith, inv.counts),
      omega (arith, inv.counts, holds_small s),
      λ i j before plain.
          inv.history i j before (omega arith) ∙ seen_word_plain d v j (s.log i j) (omega arith),
      λ i before.
          inv.history i (d - 1) before (omega (arith, l.nonempty))
          ∙ seen_word_last d v (d - 1) (s.log i (d - 1)) (omega (arith, l.nonempty)),
    )
