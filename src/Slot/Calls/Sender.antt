-- ===== src/Slot/Calls/Sender.antt =====
-- `ssmp_send_platf` of src/platform/generic/ssmp_platf.c by the steps of Slot.
use ssmp.Base.{
  ℕ, zero, suc, ◌+◌, ◌/◌, ◌<◌, ◌^◌, ◌≡◌, refl, sym, ap, subst, ◌∙◌, arith, Bool, if◌then◌else◌,
  ℕ_discrete,
}
use ssmp.Base.Family.{update, update_self, update_ne}
use ssmp.Base.Outcome.{done, >>=-done}
use ssmp.Message.{Msg, Slots, ssmp_buf_empty, ssmp_buf_messg, state, set_state, acquire}
use ssmp.Message.Laws.{acquire_sound, state-set_state}
use ssmp.Poll.{Env, memory, await}
use ssmp.Generic.{send}
use ssmp.Generic.Direct.{send_total}
use ssmp.Slot.{away, looking, moving, Slot, call_send, find_empty, store, store_state, end_send}
use ssmp.Slot.Calls.{stay, go_on, line, Shows, Reached, DoneBySteps, await-Follows}

-- what the receiver leaves alone while the sender looks
pub record Waits (s t : Slot) : Type 0 where
  pub same_sender : t.sender ≡ s.sender
  pub same_outgoing : t.outgoing ≡ s.outgoing
  pub same_sent : t.sent ≡ s.sent

Waits-through : (s t u : Slot) → Waits s t → Waits t u → Waits s u
Waits-through s t u f g = record {
  same_sender = g.same_sender ∙ f.same_sender;
  same_outgoing = g.same_outgoing ∙ f.same_outgoing;
  same_sent = g.same_sent ∙ f.same_sent;
}

module _ (atomic : Bool) (start : Slot) where
  -- the words before the last one are stored
  pub record Stored (s : Slot) : Type 0 where
    pub slot : Slot
    pub reached : Reached atomic start slot
    pub at_last : slot.sender ≡ moving 7
    pub words_there : (i : ℕ) → i < 7 → slot.buf i ≡ slot.outgoing i
    pub same_outgoing : slot.outgoing ≡ s.outgoing
    pub same_sent : slot.sent ≡ s.sent

  store_all :
      (n k : ℕ) (s : Slot)
      → k + n ≡ 7
      → Reached atomic start s
      → s.sender ≡ moving k
      → ((i : ℕ) → i < k → s.buf i ≡ s.outgoing i)
      → Stored s
  store_all zero k s e reached at_k there =
      let all : k ≡ 7 = omega arith in
      record {
        slot = s;
        reached = reached;
        at_last = at_k ∙ ap moving all;
        words_there = λ i lt. there i (omega arith);
        same_outgoing = refl;
        same_sent = refl;
      }
  store_all (suc n) k s e reached at_k there =
      let next =
        store_all n (k + 1) _ (omega arith) (go_on reached (store at_k (omega arith) (omega arith)))
          refl
          (λ i lt. elim (ℕ_discrete k i) [
            | yes here ↦
                subst (λ x. update s.buf k (s.outgoing k) x ≡ s.outgoing x) here
                  (update_self s.buf k (s.outgoing k))
            | no before ↦ update_ne s.buf k i (s.outgoing k) before ∙ there i (omega arith)
          ]) in
      record {
        slot = next.slot;
        reached = next.reached;
        at_last = next.at_last;
        words_there = next.words_there;
        same_outgoing = next.same_outgoing;
        same_sent = next.same_sent;
      }

  -- What a send has done by steps, when `n` messages were made visible before: it has ended, the buffer
  -- shows `m'`, and the words of `m'` are the next message that was made visible.
  pub record Sends (n : ℕ) (m' : Msg) : Type 0 where
    pub slot : Slot
    pub reached : Reached atomic start slot
    pub ended : slot.sender ≡ away
    pub shows : Shows m' slot
    pub one_more : slot.sent ≡ n + 1
    pub logged : (i : ℕ) → slot.log n i ≡ line m' i

  -- the last word, and the return
  finish-Sends :
      (m' : Msg) (s : Slot) (st : Stored s)
      → state m' ≡ 1
      → ((i : ℕ) → s.outgoing i ≡ line m' i)
      → Sends s.sent m'
  finish-Sends m' s st visible carries =
      let out : (i : ℕ) → st.slot.outgoing i ≡ line m' i =
        λ i. ap (λ f. f i) st.same_outgoing ∙ carries i in
      record {
        slot = _;
        reached =
            go_on (go_on st.reached (store_state st.at_last (omega arith) (omega arith)))
              (end_send refl);
        ended = refl;
        shows = record {
          flag_same = sym visible;
          words_same = λ i lt.
              update_ne st.slot.buf 7 i (st.slot.outgoing 7) (omega arith)
              ∙ st.words_there i lt
              ∙ out i;
          pad_same = ap (λ x. x / 2 ^ 8) (update_self st.slot.buf 7 (st.slot.outgoing 7) ∙ out 7);
        };
        one_more = ap (λ n. n + 1) st.same_sent;
        logged = λ i.
            subst (λ n. update st.slot.log st.slot.sent st.slot.outgoing n i ≡ line m' i)
              st.same_sent
              (ap (λ f. f i) (update_self st.slot.log st.slot.sent st.slot.outgoing) ∙ out i);
      }

  -- from the empty buffer to the return
  copy-Sends :
      (m' : Msg) (s : Slot)
      → state m' ≡ 1
      → Reached atomic start s
      → s.sender ≡ looking
      → ((i : ℕ) → s.outgoing i ≡ line m' i)
      → s.flag ≡ 0
      → Sends s.sent m'
  copy-Sends m' s visible reached looks carries free =
      let begun : Slot = record s { flag = if atomic then 2 else 0; sender = moving 0 } in
      let st : Stored begun =
        store_all 7 0 begun refl (go_on reached (find_empty looks free)) refl
          (λ i lt. absurd (omega arith)) in
      finish-Sends m' begun st visible carries

  module _ (env : Env Slots) (p : ℕ) (by_steps : DoneBySteps atomic start Waits env p) where
    -- What `ssmp_send` of the generic port does to the buffer to `p`, from the look at its state to its
    -- return, is done by steps of Slot.
    pub send-Sends :
        (fuel : ℕ) (msg : Msg) (m : Slots) (s : Slot) {msg' : Msg} {m' : Slots}
        → Reached atomic start s
        → s.sender ≡ away
        → Shows (m p) s
        → send atomic env fuel p msg m ≡ done (msg', m')
        → (Sends s.sent (set_state ssmp_buf_messg msg))
          × (m' p ≡ set_state ssmp_buf_messg msg)
          × (msg' ≡ set_state ssmp_buf_messg msg)
    unfolding send
    send-Sends fuel msg m s {msg'} {m'} reached idle shows h =
        let called : Slot = record s {
          sender = looking;
          outgoing = line (set_state ssmp_buf_messg msg);
        } in
        let shown : Shows (m p) called = record {
          flag_same = shows.flag_same;
          words_same = shows.words_same;
          pad_same = shows.pad_same;
        } in
        let (t, found, ret) =
          >>=-done (await env (λ x. acquire atomic x p ssmp_buf_empty) fuel 0 m) _ h in
        let (seen, ok, f) =
          await-Follows atomic start Waits Waits-through env p by_steps
            (λ x. acquire atomic x p ssmp_buf_empty) fuel 0 m called
            (go_on reached (call_send (line (set_state ssmp_buf_messg msg)) idle)) shown found in
        let a = acquire_sound atomic seen p ssmp_buf_empty ok in
        let sends =
          copy-Sends (set_state ssmp_buf_messg msg) f.slot (state-set_state 1 msg (omega arith))
            f.reached f.kept.same_sender (λ i. ap (λ g. g i) f.kept.same_outgoing)
            (f.shows.flag_same ∙ a.was) in
        let wrote : update t p (set_state ssmp_buf_messg msg) ≡ m' = cc ret in
        let there : m' p ≡ set_state ssmp_buf_messg msg =
          ap (λ g. g p) (sym wrote) ∙ update_self t p (set_state ssmp_buf_messg msg) in
        let marked : set_state ssmp_buf_messg msg ≡ msg' = cc ret in
        (
          subst (λ n. Sends n (set_state ssmp_buf_messg msg)) f.kept.same_sent sends,
          there,
          sym marked,
        )

    -- If `memcpy` stores the words in their order, the sender is away and the buffer word by word, `start`,
    -- shows what is in memory, the others act on it by its steps and leave the sender alone, and the
    -- buffer to `p` is found empty at look `k`, which is within the fuel, then `ssmp_send` of the generic
    -- port returns, the buffer holds the message with the state SSMP_BUF_MESSG, and steps lead from `start`
    -- to a buffer word by word that shows it: the sender is away again, one more message has been made
    -- visible, and its words are the words of that message.
    pub send-Sends_total :
        (k fuel : ℕ) (msg : Msg) (m : Slots)
        → start.sender ≡ away
        → Shows (m p) start
        → k < fuel
        → state (memory env m (suc k) p) ≡ ssmp_buf_empty
        → (m' : Slots) × (send atomic env fuel p msg m ≡ done (set_state ssmp_buf_messg msg, m'))
          × (m' p ≡ set_state ssmp_buf_messg msg)
          × Sends start.sent (set_state ssmp_buf_messg msg)
    send-Sends_total k fuel msg m idle shows lt free =
        let ((msg', m'), ret) = send_total atomic env m fuel p msg k lt free in
        let (sends, there, marked) = send-Sends fuel msg m start stay idle shows ret in
        (m', ret ∙ ap (λ x. done (x, m')) marked, there, sends)
