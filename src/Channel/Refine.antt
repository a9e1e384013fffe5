-- ===== src/Channel/Refine.antt =====
-- A buffer under every interleaving is a mailbox of one letter: what `ssmp_send_platf` and
-- `ssmp_recv_from_platf` of src/platform/niagara/ssmp_platf.c promise their callers.
use ssmp.Base.{
  ℕ, ◌≡◌, arith, ap, sym, subst, List, [], ◌∷◌, ◌++◌, Option, none, some, if◌then◌else◌, ◌==◌,
}
use ssmp.Channel.{
  Channel, Step, call_send, see_empty, put, set_messg, call_recv, see_messg, get, set_empty, Dwords,
  Reach, start, next, copying,
}
use ssmp.Channel.Invariant.{Inv, Reach-Inv, copied, is_copying}
use ssmp.Mailbox.{
  words_ext, words, Event, sends, receives, Serves, put_letter, take_letter, Trace, nothing_yet,
  then_event,
}

-- the letter in the buffer
abbrev pub view : ℕ → Channel → Option (List ℕ)
view d s = if s.flag == 0 then none else some (words d s.buf)

-- the event of a step, if it is the last of a call
abbrev pub event : {d : ℕ} {s t : Channel} → Step d s t → List Event
event (call_send m at) = []
event (see_empty at e) = []
event (put at lt) = []
event {d = d} {s = s} (set_messg at) = sends (words d s.outgoing) ∷ []
event (call_recv at) = []
event (see_messg at e) = []
event (get at lt) = []
event {d = d} {s = s} (set_empty at) = receives (words d s.incoming) ∷ []

abbrev pub events : {d : ℕ} {junk : Dwords} {s : Channel} → Reach d junk s → List Event
events start = []
events (next r st) = event st ++ events r

module _ (d : ℕ) where
  view_empty : (s : Channel) → s.flag ≡ 0 → view d s ≡ none
  view_empty s e = ground arith

  view_full : (s : Channel) → s.flag ≡ 1 → view d s ≡ some (words d s.buf)
  view_full s e = ground arith

  module _ (es : List Event) {s : Channel} (inv : Inv d s) (tr : Trace es (view d s)) where
    empty_while_sending : {k : ℕ} → s.sender ≡ copying k → s.flag ≡ 0
    empty_while_sending at = omega (arith, inv.sender_alone, ap is_copying at)

    full_while_receiving : {k : ℕ} → s.receiver ≡ copying k → s.flag ≡ 1
    full_while_receiving at = omega (arith, inv.receiver_alone, inv.bit, ap is_copying at)

    step_refines : {t : Channel} (st : Step d s t) → Trace (event st ++ es) (view d t)
    step_refines (call_send m at) = tr
    step_refines (see_empty at e) = tr
    step_refines (put {k} at lt) =
        let e : s.flag ≡ 0 = empty_while_sending at in subst (Trace es) (ground (arith, e)) tr
    step_refines (set_messg at) =
        let e : s.flag ≡ 0 = empty_while_sending at in
        let same : words d s.outgoing ≡ words d s.buf =
          words_ext d _ _ (λ j lt. sym (inv.put_so_far j (omega (arith, ap copied at)))) in
        then_event (subst (Trace es) (view_empty s e) tr)
          (subst (λ m. Serves none (sends m) (some (words d s.buf))) (sym same) put_letter)
    step_refines (call_recv at) = tr
    step_refines (see_messg at e) = tr
    step_refines (get at lt) = tr
    step_refines (set_empty at) =
        let e : s.flag ≡ 1 = full_while_receiving at in
        let same : words d s.incoming ≡ words d s.buf =
          words_ext d _ _ (λ j lt. inv.got_so_far j (omega (arith, ap copied at))) in
        then_event (subst (Trace es) (view_full s e) tr)
          (subst (λ m. Serves (some (words d s.buf)) (receives m) none) (sym same) take_letter)

-- In every run of a sender and a receiver of messages of `d` double words on an empty buffer, in
-- any interleaving, the calls that return are, in their order, those of a mailbox of one letter:
-- a call of `ssmp_send` returns into an empty mailbox and puts its message there, one of
-- `ssmp_recv_from` returns out of a full one with the letter. The mailbox is full when the flag
-- is set, with the double words of the buffer.
pub Reach-Trace :
    {d : ℕ} {junk : Dwords} {s : Channel} (r : Reach d junk s) → Trace (events r) (view d s)
Reach-Trace start = nothing_yet
Reach-Trace {d} {junk} (next {s = s} r st) =
    step_refines d (events r) (Reach-Inv d junk s r) (Reach-Trace r) st
