-- ===== src/Slot/Refine.antt =====
-- A buffer of src/platform/generic/ssmp_platf.c under every interleaving is a mailbox of one letter, when
-- `memcpy` stores the word with the state last.
use ssmp.Base.{
  ℕ, ◌+◌, ◌^◌, ◌<◌, ◌≡◌, refl, arith, ap, sym, subst, ap₂, ◌∙◌, List, [], ◌∷◌, ◌++◌, Option, none,
  some, Bool, if◌then◌else◌, ◌==◌,
}
use ssmp.Base.Family.{update, update_self}
use ssmp.Slot.Words.{plain_word, plain_word-seen_word}
use ssmp.Slot.{
  Slot, Step, call_send, find_empty, store, store_state, end_send, call_recv, find_messg, load,
  empty, Reach, begin, then_step,
}
use ssmp.Slot.Invariant.Defs.{moved, holds, holds_small, claimed, IsLast, Inv}
use ssmp.Slot.Invariant.{Reach-Inv, Step-Inv}
use ssmp.Mailbox.{
  words, words_ext, Event, sends, receives, Serves, put_letter, take_letter, Trace, nothing_yet,
  then_event,
}

-- a message without its state
abbrev pub letter_of : ℕ → (ℕ → ℕ) → List ℕ
letter_of d m = words d (λ k. plain_word d k (m k))

-- the letter in the buffer: the message that was last made visible, if it has not been received
abbrev pub letter_in : ℕ → Slot → Option (List ℕ)
letter_in d s = if holds s == 1 then some (letter_of d (s.log s.received)) else none

module _ {atomic : Bool} {d : ℕ} {at : ℕ → ℕ} where
  -- A send counts when its message becomes visible, a receive when it empties the buffer.
  abbrev pub event_of : {s t : Slot} → Step atomic d at s t → List Event
  event_of (call_send m e) = []
  event_of (find_empty e free) = []
  event_of (store e lt more) = []
  event_of {s = s} (store_state e lt is_state) = sends (letter_of d s.outgoing) ∷ []
  event_of (end_send e) = []
  event_of (call_recv e) = []
  event_of (find_messg e up) = []
  event_of (load e lt) = []
  event_of {s = s} (empty e) = receives (letter_of d s.incoming) ∷ []

  abbrev pub events_of : {junk : ℕ → ℕ} {s : Slot} → Reach atomic d at junk s → List Event
  events_of begin = []
  events_of (then_step r st) = event_of st ++ events_of r

  module _ (es : List Event) {s t : Slot} (inv : Inv atomic d at s) (inv' : Inv atomic d at t)
      (tr : Trace es (letter_in d s)) where
    -- a step that neither makes a message visible nor ends a receive
    silent :
        t.sent ≡ s.sent
        → t.received ≡ s.received
        → letter_of d (t.log t.received) ≡ letter_of d (s.log s.received)
        → Trace es (letter_in d t)
    silent e e' same =
        let still : holds t ≡ holds s = omega (arith, inv.counts, inv'.counts, e, e') in
        subst (Trace es) (sym (ap₂ (λ w h. if h == 1 then some w else none) same still)) tr

    none_before : t.sent ≡ s.sent + 1 → t.received ≡ s.received → s.received ≡ s.sent
    none_before e e' = omega (arith, inv.counts, inv'.counts, holds_small t, e, e')

    one_before : t.sent ≡ s.sent → t.received ≡ s.received + 1 → holds s ≡ 1
    one_before e e' = omega (arith, inv.counts, inv'.counts, holds_small s, e, e')

    appears :
        (m : List ℕ)
        → t.sent ≡ s.sent + 1
        → t.received ≡ s.received
        → letter_of d (t.log t.received) ≡ m
        → Trace (sends m ∷ es) (letter_in d t)
    appears m e e' same =
        let before : holds s ≡ 0 = omega (arith, inv.counts, inv'.counts, holds_small t, e, e') in
        let after_it : holds t ≡ 1 = omega (arith, inv.counts, inv'.counts, holds_small t, e, e') in
        then_event
          (subst (Trace es)
            (ap (λ h. if h == 1 then some (letter_of d (s.log s.received)) else none) before) tr)
          (subst (Serves none (sends m))
            (sym (ap₂ (λ w h. if h == 1 then some w else none) same after_it)) put_letter)

    vanishes :
        (m : List ℕ)
        → t.sent ≡ s.sent
        → t.received ≡ s.received + 1
        → letter_of d (s.log s.received) ≡ m
        → Trace (receives m ∷ es) (letter_in d t)
    vanishes m e e' same =
        let before : holds s ≡ 1 = one_before e e' in
        let after_it : holds t ≡ 0 = omega (arith, inv.counts, inv'.counts, holds_small s, e, e') in
        then_event (subst (Trace es) (ap₂ (λ w h. if h == 1 then some w else none) same before) tr)
          (subst (Serves (some m) (receives m))
            (sym
              (ap (λ h. if h == 1 then some (letter_of d (t.log t.received)) else none) after_it))
            take_letter)

  step_refines :
      (es : List Event) {s t : Slot} (st : Step atomic d at s t)
      → Inv atomic d at s
      → Inv atomic d at t
      → Trace es (letter_in d s)
      → Trace (event_of st ++ es) (letter_in d t)
  step_refines es (call_send m e) inv inv' tr = silent es inv inv' tr refl refl refl
  step_refines es (find_empty e free) inv inv' tr = silent es inv inv' tr refl refl refl
  step_refines es (store e lt more) inv inv' tr = silent es inv inv' tr refl refl refl
  step_refines es {s = s} (store_state {k} e lt is_state) inv inv' tr =
      let same : update s.log s.sent s.outgoing s.received ≡ s.outgoing =
        ap (update s.log s.sent s.outgoing) (none_before es inv inv' tr refl refl)
        ∙ update_self s.log s.sent s.outgoing in
      appears es inv inv' tr (letter_of d s.outgoing) refl refl (ap (letter_of d) same)
  step_refines es (end_send e) inv inv' tr = silent es inv inv' tr refl refl refl
  step_refines es (call_recv e) inv inv' tr = silent es inv inv' tr refl refl refl
  step_refines es (find_messg e up) inv inv' tr = silent es inv inv' tr refl refl refl
  step_refines es (load e lt) inv inv' tr = silent es inv inv' tr refl refl refl
  step_refines es {s = s} (empty e) inv inv' tr =
      let full : holds s ≡ 1 = one_before es inv inv' tr refl refl in
      let all : moved s.receiver ≡ d = ap moved e in
      let small : claimed atomic < 2 ^ 8 = ground arith in
      vanishes es inv inv' tr (letter_of d s.incoming) refl refl (
        words_ext d (λ j. plain_word d j (s.log s.received j)) (λ j. plain_word d j (s.incoming j))
          (λ j lt. sym (
            ap (plain_word d j) (inv.loaded j (omega (arith, all)))
            ∙ plain_word-seen_word d (claimed atomic) j (s.buf j) small
            ∙ ap (plain_word d j) (inv.full j full lt))))

-- In every run of a sender and a receiver of messages of `d` words on an empty buffer, in any
-- interleaving, with USE_ATOMIC or without it, when `memcpy` stores every word and the one with the
-- state last: the messages that become visible and the receives that end are, in their order, the
-- events of a mailbox of one letter, from the empty one on. A letter is a message without its state, the
-- lowest byte of its last word.
pub events_of-Trace :
    {atomic : Bool} {d : ℕ} {at junk : ℕ → ℕ} {s : Slot}
    → IsLast d at
    → (r : Reach atomic d at junk s) → Trace (events_of r) (letter_in d s)
events_of-Trace {atomic} {d} {at} {junk} l begin = nothing_yet
events_of-Trace {atomic} {d} {at} {junk} l (then_step {s = s} {t = t} r st) =
    let inv : Inv atomic d at s = Reach-Inv atomic d at l junk s r in
    step_refines (events_of r) st inv (Step-Inv atomic d at l s t st inv) (events_of-Trace l r)
