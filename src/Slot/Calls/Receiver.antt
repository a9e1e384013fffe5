-- ===== src/Slot/Calls/Receiver.antt =====
-- `ssmp_recv_from_platf` of src/platform/generic/ssmp_platf.c by the steps of Slot.
use ssmp.Base.{
  ℕ, zero, suc, ◌+◌, ◌/◌, ◌<◌, ◌^◌, ◌≡◌, refl, sym, ap, subst, subst₂, ◌∙◌, arith, Bool,
  if◌then◌else◌, ℕ_discrete,
}
use ssmp.Base.Family.{update, update_self, update_ne}
use ssmp.Base.Outcome.{done, >>=-done}
use ssmp.Message.{Msg, Slots, ssmp_buf_empty, ssmp_buf_messg, state, set_state, acquire, release}
use ssmp.Message.Laws.{Acquired, acquire_sound, state-set_state, words-set_state}
use ssmp.Poll.{Env, memory, await}
use ssmp.Generic.{recv_from}
use ssmp.Generic.Direct.{recv_from_total}
use ssmp.Slot.{away, looking, moving, Slot, call_recv, find_messg, load, empty}
use ssmp.Slot.Words.{seen_word, plain_word, plain_word-seen_word}
use ssmp.Slot.Calls.{
  stay, go_on, line, Shows, Reached, DoneBySteps, await-Follows, line_words, pad_set_state,
}

-- what the sender leaves alone while the receiver looks
pub record Looks (s t : Slot) : Type 0 where
  pub same_receiver : t.receiver ≡ s.receiver
  pub same_received : t.received ≡ s.received

Looks-through : (s t u : Slot) → Looks s t → Looks t u → Looks s u
Looks-through s t u f g = record {
  same_receiver = g.same_receiver ∙ f.same_receiver;
  same_received = g.same_received ∙ f.same_received;
}

module _ (atomic : Bool) (start : Slot) where
  -- all words are loaded, the last up to its state
  pub record Loaded (s : Slot) : Type 0 where
    pub slot : Slot
    pub reached : Reached atomic start slot
    pub at_end : slot.receiver ≡ moving 8
    pub words_here :
        (i : ℕ) → i < 8 → plain_word 8 i (slot.incoming i) ≡ plain_word 8 i (slot.buf i)
    pub same_buf : slot.buf ≡ s.buf
    pub same_received : slot.received ≡ s.received

  load_all :
      (n k : ℕ) (s : Slot)
      → k + n ≡ 8
      → Reached atomic start s
      → s.receiver ≡ moving k
      → s.flag < 2 ^ 8
      → ((i : ℕ) → i < k → plain_word 8 i (s.incoming i) ≡ plain_word 8 i (s.buf i))
      → Loaded s
  load_all zero k s e reached at_k small here =
      let all : k ≡ 8 = omega arith in
      record {
        slot = s;
        reached = reached;
        at_end = at_k ∙ ap moving all;
        words_here = λ i lt. here i (omega arith);
        same_buf = refl;
        same_received = refl;
      }
  load_all (suc n) k s e reached at_k small here =
      let w : ℕ = seen_word 8 s.flag k (s.buf k) in
      let next =
        load_all n (k + 1) _ (omega arith) (go_on reached (load at_k (omega arith))) refl small
          (λ i lt. elim (ℕ_discrete k i) [
            | yes now ↦
                subst (λ x. plain_word 8 x (update s.incoming k w x) ≡ plain_word 8 x (s.buf x)) now
                  (ap (plain_word 8 k) (update_self s.incoming k w)
                    ∙ plain_word-seen_word 8 s.flag k (s.buf k) small)
            | no before ↦
                ap (plain_word 8 i) (update_ne s.incoming k i w before) ∙ here i (omega arith)
          ]) in
      record {
        slot = next.slot;
        reached = next.reached;
        at_end = next.at_end;
        words_here = next.words_here;
        same_buf = next.same_buf;
        same_received = next.same_received;
      }

  -- What a receive has done by steps, when `n` messages were received before: it has ended, the buffer
  -- shows `left`, and what it has received next are the words of `msg`, up to its state.
  pub record Receives (n : ℕ) (msg left : Msg) : Type 0 where
    pub slot : Slot
    pub reached : Reached atomic start slot
    pub ended : slot.receiver ≡ away
    pub shows : Shows left slot
    pub one_more : slot.received ≡ n + 1
    pub got_words : (i : ℕ) → i < 7 → slot.got n i ≡ line msg i
    pub got_pad : slot.got n 7 / 2 ^ 8 ≡ msg.pad / 2 ^ 8

  finish-Receives :
      (msg left : Msg) (s : Slot) (ld : Loaded s)
      → state left ≡ 0
      → ((i : ℕ) → i < 7 → s.buf i ≡ line left i)
      → (s.buf 7 / 2 ^ 8 ≡ left.pad / 2 ^ 8)
      → msg.words ≡ left.words
      → msg.pad / 2 ^ 8 ≡ left.pad / 2 ^ 8
      → Receives s.received msg left
  finish-Receives msg left s ld emptied words pad same same_pad =
      let held : (i : ℕ) → i < 7 → ld.slot.buf i ≡ line left i =
        λ i lt. ap (λ f. f i) ld.same_buf ∙ words i lt in
      let held_pad : ld.slot.buf 7 / 2 ^ 8 ≡ left.pad / 2 ^ 8 =
        ap (λ f. f 7 / 2 ^ 8) ld.same_buf ∙ pad in
      let log : ℕ → ℕ → ℕ = update ld.slot.got ld.slot.received ld.slot.incoming in
      let newest : (i : ℕ) → log s.received i ≡ ld.slot.incoming i = λ i.
        subst (λ n. log n i ≡ ld.slot.incoming i) ld.same_received
          (ap (λ f. f i) (update_self ld.slot.got ld.slot.received ld.slot.incoming)) in
      let whole_word : (i : ℕ) → i < 7 → ld.slot.incoming i ≡ ld.slot.buf i =
        λ i lt. ground (arith, ld.words_here i (omega arith)) in
      record {
        slot = _;
        reached = go_on ld.reached (empty ld.at_end);
        ended = refl;
        shows = record { flag_same = sym emptied; words_same = held; pad_same = held_pad };
        one_more = ap (λ n. n + 1) ld.same_received;
        got_words =
            λ i lt. newest i ∙ whole_word i lt ∙ held i lt ∙ line_words left msg (sym same) i lt;
        got_pad =
            ap (λ x. x / 2 ^ 8) (newest 7)
            ∙ ld.words_here 7 (omega arith)
            ∙ held_pad
            ∙ sym same_pad;
      }

  -- from the look that finds the message to the return
  take-Receives :
      (seen t : Slots) (p : ℕ) (s : Slot)
      → Acquired seen p 1 t
      → Reached atomic start s
      → s.receiver ≡ looking
      → Shows (seen p) s
      → Receives s.received (t p) (set_state 0 (t p))
  take-Receives seen t p s a reached looks shows =
      let left : Msg = set_state 0 (t p) in
      let begun : Slot = record s { flag = if atomic then 2 else 1; receiver = moving 0 } in
      let ld : Loaded begun =
        load_all 8 0 begun refl (go_on reached (find_messg looks (shows.flag_same ∙ a.was))) refl
          (ground arith) (λ i lt. absurd (omega arith)) in
      let kept : (t p).words ≡ left.words = sym (words-set_state 0 (t p)) in
      finish-Receives (t p) left begun ld (state-set_state 0 (t p) (omega arith))
        (λ i lt. shows.words_same i lt ∙ line_words (seen p) left (sym a.same ∙ kept) i lt)
        (shows.pad_same
          ∙ sym (pad_set_state 0 (seen p))
          ∙ ap (λ x. x.pad / 2 ^ 8) (sym (a.cleared 0)))
        kept (sym (pad_set_state 0 (t p)))

  module _ (env : Env Slots) (p : ℕ) (by_steps : DoneBySteps atomic start Looks env p) where
    -- What `ssmp_recv_from` of the generic port does to the buffer from `p`, from the look at its state
    -- to its return, is done by steps of Slot.
    pub recv_from-Receives :
        (fuel : ℕ) (m : Slots) (s : Slot) {msg : Msg} {m' : Slots}
        → Reached atomic start s
        → s.receiver ≡ away
        → Shows (m p) s
        → recv_from atomic env fuel p m ≡ done (msg, m')
        → Receives s.received msg (m' p)
    unfolding recv_from release
    recv_from-Receives fuel m s {msg} {m'} reached idle shows h =
        let called : Slot = record s { receiver = looking } in
        let shown : Shows (m p) called = record {
          flag_same = shows.flag_same;
          words_same = shows.words_same;
          pad_same = shows.pad_same;
        } in
        let (t, found, ret) =
          >>=-done (await env (λ x. acquire atomic x p ssmp_buf_messg) fuel 0 m) _ h in
        let (seen, ok, f) =
          await-Follows atomic start Looks Looks-through env p by_steps
            (λ x. acquire atomic x p ssmp_buf_messg) fuel 0 m called
            (go_on reached (call_recv idle)) shown found in
        let a = acquire_sound atomic seen p ssmp_buf_messg ok in
        let received = take-Receives seen t p f.slot a f.reached f.kept.same_receiver f.shows in
        let msg_same : t p ≡ msg = cc ret in
        let wrote : update t p (set_state ssmp_buf_empty (t p)) ≡ m' = cc ret in
        let there : set_state ssmp_buf_empty (t p) ≡ m' p =
          sym (update_self t p (set_state ssmp_buf_empty (t p))) ∙ ap (λ g. g p) wrote in
        subst₂ (Receives s.received) msg_same there
          (subst (λ n. Receives n (t p) (set_state 0 (t p))) f.kept.same_received received)

    -- If `memcpy` stores the words in their order, the receiver is away and the buffer word by word, `start`,
    -- shows what is in memory, the others act on it by its steps and leave the receiver alone, and the
    -- buffer from `p` is found with a message at look `k`, which is within the fuel, then `ssmp_recv_from`
    -- of the generic port returns, and steps lead from `start` to a buffer word by word that shows what it
    -- leaves: the receiver is away again, one more message has been received, and its words are those of
    -- the message that is returned, up to the state.
    pub recv_from-Receives_total :
        (k fuel : ℕ) (m : Slots)
        → start.receiver ≡ away
        → Shows (m p) start
        → k < fuel
        → state (memory env m (suc k) p) ≡ ssmp_buf_messg
        → (msg : Msg) × (m' : Slots) × (recv_from atomic env fuel p m ≡ done (msg, m'))
          × Receives start.received msg (m' p)
    recv_from-Receives_total k fuel m idle shows lt full =
        let ((msg, m'), ret) = recv_from_total atomic env m fuel p k lt full in
        (msg, m', ret, recv_from-Receives fuel m start stay idle shows ret)
