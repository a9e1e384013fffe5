-- ===== src/Channel/Fifo.antt =====
-- The buffer is a queue of one message.
use ssmp.Base.{ℕ, ◌+◌, ◌≤◌, ◌<◌, ◌≡◌, arith}
use ssmp.Channel.{Dwords, Channel, Reach}
use ssmp.Channel.Invariant.{Inv, Reach-Inv}

module _ {d : ℕ} {junk : Dwords} {s : Channel} (r : Reach d junk s) where
  inv : Inv d s
  inv = Reach-Inv d junk s r

  -- In every interleaving of a sender and a receiver of messages of `d` double words, from the
  -- empty buffer on: as many messages have been received as sent or one less, and the i-th
  -- message that was received has the double words of the i-th message that was sent, so none is
  -- lost, doubled, overtaken or torn.
  pub receives_in_order :
      (s.received ≤ s.sent)
      × (s.sent ≤ s.received + 1)
      × ((i j : ℕ) → i < s.received → j < d → s.got i j ≡ s.log i j)
  receives_in_order = (omega (arith, inv.counts), omega (arith, inv.counts, inv.bit), inv.history)
