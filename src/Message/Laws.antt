-- ===== src/Message/Laws.antt =====
-- The union of `ssmp_msg_t`, and what taking and releasing a buffer changes.
use ssmp.Base.{ℕ, ◌<◌, ◌^◌, ◌≡◌, ◌≢◌, Bool, true, false, some, arith, refl, ℕ_discrete, subst, ◌∙◌}
use ssmp.Base.Family.{update, update_self, update_ne}
use ssmp.Message.{
  Msg, Slots, ssmp_buf_empty, ssmp_buf_messg, ssmp_buf_lockd, state, sender, set_state, set_sender,
  acquire, release,
}

pub state-set_state : (v : ℕ) (m : Msg) → v < 256 → state (set_state v m) ≡ v
unfolding state set_state
state-set_state v m h = omega arith

pub words-set_state : (v : ℕ) (m : Msg) → (set_state v m).words ≡ m.words
unfolding set_state
words-set_state v m = refl

pub sender-set_sender : (v : ℕ) (m : Msg) → v < 2 ^ 32 → sender (set_sender v m) ≡ v
unfolding sender set_sender
sender-set_sender v m h = omega arith

pub words-set_sender : (v : ℕ) (m : Msg) → (set_sender v m).words ≡ m.words
unfolding set_sender
words-set_sender v m = refl

-- The last write to the state of a message counts.
pub set_state-set_state : (v w : ℕ) (m : Msg) → set_state v (set_state w m) ≡ set_state v m
unfolding set_state
set_state-set_state v w m = ground arith

-- The sender covers the state.
pub set_sender-set_state : (v w : ℕ) (m : Msg) → set_sender v (set_state w m) ≡ set_sender v m
unfolding set_state set_sender
set_sender-set_state v w m = ground arith

-- A test that succeeds found the state that it looked for, and left the words and all other
-- buffers alone.
pub record Acquired (s : Slots) (p old : ℕ) (s' : Slots) : Type 0 where
  pub was : state (s p) ≡ old
  pub same : (s' p).words ≡ (s p).words
  pub untagged : (v : ℕ) → set_sender v (s' p) ≡ set_sender v (s p)
  pub cleared : (v : ℕ) → set_state v (s' p) ≡ set_state v (s p)
  pub others : (j : ℕ) → p ≢ j → s' j ≡ s j

swapped :
    (s : Slots) (p old : ℕ)
    → state (s p) ≡ old
    → Acquired s p old (update s p (set_state ssmp_buf_lockd (s p)))
swapped s p old h = record {
  was = h;
  same = rw (update_self s p (set_state ssmp_buf_lockd (s p))) (words-set_state _ _);
  untagged =
      λ v. rw (update_self s p (set_state ssmp_buf_lockd (s p))) (set_sender-set_state v _ _);
  cleared = λ v. rw (update_self s p (set_state ssmp_buf_lockd (s p))) (set_state-set_state v _ _);
  others = λ j ne. update_ne s p j _ ne;
}

pub acquire_sound :
    (atomic : Bool) (s : Slots) (p old : ℕ) {s' : Slots}
    → acquire atomic s p old ≡ some s'
    → Acquired s p old s'
unfolding acquire
acquire_sound true s p old h = elim (ℕ_discrete (state (s p)) old) [
  | yes e ↦ subst (λ t. Acquired s p old t) (ground arith) (swapped s p old e)
  | no ne ↦ absurd (ground arith)
]
acquire_sound false s p old h = elim (ℕ_discrete (state (s p)) old) [
  | yes e ↦
      subst (λ t. Acquired s p old t) (ground arith)
        (record {
          was = e;
          same = refl;
          untagged = λ v. refl;
          cleared = λ v. refl;
          others = λ j ne. refl;
        })
  | no ne ↦ absurd (ground arith)
]

pub acquire_total :
    (atomic : Bool) (s : Slots) (p old : ℕ)
    → state (s p) ≡ old
    → (s' : Slots) × (acquire atomic s p old ≡ some s')
unfolding acquire
acquire_total true s p old h = (update s p (set_state ssmp_buf_lockd (s p)), ground arith)
acquire_total false s p old h = (s, ground arith)

-- `r` is the message of buffer `p` of `s`, taken out of it and marked as sent by `tag`.
pub record Received (s : Slots) (p tag : ℕ) (m : Msg) (after : Slots) : Type 0 where
  pub was : state (s p) ≡ ssmp_buf_messg
  pub words : m.words ≡ (s p).words
  pub from : sender m ≡ tag
  pub emptied : state (after p) ≡ ssmp_buf_empty
  pub others : (j : ℕ) → p ≢ j → after j ≡ s j

pub state-release : (s : Slots) (p : ℕ) → state (release s p p) ≡ ssmp_buf_empty
unfolding release
state-release s p =
    rw (update_self s p (set_state ssmp_buf_empty (s p))) (state-set_state 0 (s p) (omega arith))

pub release_ne : (s : Slots) (p j : ℕ) → p ≢ j → release s p j ≡ s j
unfolding release
release_ne s p j ne = update_ne s p j _ ne

pub Acquired-Received :
    {s s' : Slots} {p : ℕ} (tag : ℕ)
    → Acquired s p ssmp_buf_messg s'
    → tag < 2 ^ 32
    → Received s p tag (set_sender tag (s' p)) (release s' p)
Acquired-Received {s} {s'} {p} tag a lt = record {
  was = a.was;
  words = words-set_sender tag (s' p) ∙ a.same;
  from = sender-set_sender tag (s' p) lt;
  emptied = state-release s' p;
  others = λ j ne. release_ne s' p j ne ∙ a.others j ne;
}

-- The buffer `to` was empty, and now holds the words of `msg` as a message.
pub record Sent (s : Slots) (to : ℕ) (msg : Msg) (after : Slots) : Type 0 where
  pub was : state (s to) ≡ ssmp_buf_empty
  pub words : (after to).words ≡ msg.words
  pub flagged : state (after to) ≡ ssmp_buf_messg
  pub others : (j : ℕ) → to ≢ j → after j ≡ s j

pub Acquired-Sent :
    {s s' : Slots} {to : ℕ} (msg : Msg)
    → Acquired s to ssmp_buf_empty s'
    → Sent s to msg (update s' to (set_state ssmp_buf_messg msg))
Acquired-Sent {s} {s'} {to} msg a = record {
  was = a.was;
  words = rw (update_self s' to (set_state ssmp_buf_messg msg)) (words-set_state 1 msg);
  flagged =
      rw (update_self s' to (set_state ssmp_buf_messg msg)) (state-set_state 1 msg (omega arith));
  others = λ j ne. update_ne s' to j _ ne ∙ a.others j ne;
}

-- The message of buffer `p` of `s`, with the state that it was claimed by, and the buffer emptied.
pub record Taken (s : Slots) (p : ℕ) (m : Msg) (after : Slots) : Type 0 where
  pub was : state (s p) ≡ ssmp_buf_messg
  pub words : m.words ≡ (s p).words
  pub emptied : state (after p) ≡ ssmp_buf_empty
  pub others : (j : ℕ) → p ≢ j → after j ≡ s j

pub Acquired-Taken :
    {s s' : Slots} {p : ℕ} → Acquired s p ssmp_buf_messg s' → Taken s p (s' p) (release s' p)
Acquired-Taken {s} {s'} {p} a = record {
  was = a.was;
  words = a.same;
  emptied = state-release s' p;
  others = λ j ne. release_ne s' p j ne ∙ a.others j ne;
}
