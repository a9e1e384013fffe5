-- ===== src/Slot/Invariant.antt =====
-- What holds of a buffer of src/platform/generic/ssmp_platf.c when the word with the state is stored last.
pub mod Defs
mod Sender
mod Receiver
use ssmp.Base.{ℕ, ◌+◌, ◌≤◌, ◌<◌, ◌≡◌, ◌≢◌, refl, arith, ap, Bool, if◌then◌else◌, ◌==◌, ltb, ◌∙◌}
use ssmp.Base.Family.{update}
use ssmp.Slot.{
  Stage, away, looking, moving, Slot, Step, call_send, find_empty, store, store_state, end_send,
  call_recv, find_messg, load, empty, fresh_slot, Reach, begin, then_step,
}
use ssmp.Slot.Invariant.Defs.{
  moved, storing, loading, holds, IsLast, Inv, loading-moved, loading_small, storing_small,
}
use ssmp.Slot.Invariant.Sender.{
  call_send-Inv, find_empty-Inv, store-Inv, store_state-Inv, end_send-Inv,
}
use ssmp.Slot.Invariant.Receiver.{call_recv-Inv, find_messg-Inv, load-Inv, empty-Inv}

module _ (atomic : Bool) (d : ℕ) (at : ℕ → ℕ) (l : IsLast d at) where
  fresh_slot-Inv : (junk : ℕ → ℕ) → Inv atomic d at (fresh_slot atomic d at junk)
  fresh_slot-Inv junk = record {
    one = omega arith;
    taken = λ e. absurd (omega arith);
    held = λ e. absurd (omega arith);
    settled = λ e. omega arith;
    sender_within = omega arith;
    receiver_within = omega arith;
    counts = refl;
    stored = λ k lt. absurd (omega arith);
    loaded = λ j lt. absurd (omega arith);
    full = λ j e. absurd (ground arith);
    history = λ i j lt. absurd (omega arith);
  }

  pub Step-Inv : (s t : Slot) → Step atomic d at s t → Inv atomic d at s → Inv atomic d at t
  Step-Inv s t (call_send m e) inv = call_send-Inv atomic d at l s inv m e
  Step-Inv s t (find_empty e free) inv = find_empty-Inv atomic d at l s inv e free
  Step-Inv s t (store e lt more) inv = store-Inv atomic d at l s inv e lt more
  Step-Inv s t (store_state e lt is_state) inv = store_state-Inv atomic d at l s inv e lt is_state
  Step-Inv s t (end_send e) inv = end_send-Inv atomic d at l s inv e
  Step-Inv s t (call_recv e) inv = call_recv-Inv atomic d at l s inv e
  Step-Inv s t (find_messg e up) inv = find_messg-Inv atomic d at l s inv e up
  Step-Inv s t (load e lt) inv = load-Inv atomic d at l s inv e lt
  Step-Inv s t (empty e) inv = empty-Inv atomic d at l s inv e refl

  pub Reach-Inv : (junk : ℕ → ℕ) (s : Slot) → Reach atomic d at junk s → Inv atomic d at s
  Reach-Inv junk s begin = fresh_slot-Inv junk
  Reach-Inv junk s (then_step r st) = Step-Inv _ s st (Reach-Inv junk _ r)
