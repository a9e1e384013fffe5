-- ===== src/Slot/Torn.antt =====
-- Messages of src/platform/generic/ssmp_platf.c when `memcpy` stores some word after the one with the
-- state.
use ssmp.Base.{
  ℕ, zero, suc, ◌+◌, ◌≤◌, ◌<◌, ◌≡◌, ◌≢◌, refl, arith, ◌∙◌, subst, Bool, if◌then◌else◌, ℕ_discrete,
}
use ssmp.Base.Family.{update, update_self, update_ne}
use ssmp.Slot.Words.{seen_word, seen_word_plain}
use ssmp.Slot.{
  moving, Slot, call_send, find_empty, store, store_state, call_recv, find_messg, load, empty,
  fresh_slot, Reach, begin, then_step,
}

module _ (atomic : Bool) (d : ℕ) (at junk : ℕ → ℕ) where
  -- The sender stores `k` words, none of them the one with the state or word `i`.
  stores :
      (s : Slot) (i : ℕ)
      → Reach atomic d at junk (record s { sender = moving 0 })
      → (k : ℕ) → k ≤ d
      → ((j : ℕ) → j < k → (at j + 1 < d) × (at j ≢ i))
      → (b : ℕ → ℕ) × Reach atomic d at junk (record s { buf = b; sender = moving k })
        × (b i ≡ s.buf i)
  stores s i r zero le other = (s.buf, r, refl)
  stores s i r (suc k) le other =
      let (b, r', same) = stores s i r k (omega arith) (λ j lt. other j (omega arith)) in
      let b' : ℕ → ℕ = update b (at k) (s.outgoing (at k)) in
      let (plain, ne) = other k (omega arith) in
      let next_word : k + 1 ≡ suc k = omega arith in
      (
        b',
        subst (λ n. Reach atomic d at junk (record s { buf = b'; sender = moving n })) next_word
            (then_step r' (store refl (omega arith) plain)),
        update_ne b (at k) i (s.outgoing (at k)) ne ∙ same,
      )

  -- The receiver loads `k` words.
  loads :
      (s : Slot)
      → Reach atomic d at junk (record s { receiver = moving 0 })
      → (k : ℕ) → k ≤ d
      → (b : ℕ → ℕ) × Reach atomic d at junk (record s { incoming = b; receiver = moving k })
        × ((j : ℕ) → j < k → j + 1 < d → b j ≡ s.buf j)
  loads s r zero le = (s.incoming, r, λ j lt plain. absurd (omega arith))
  loads s r (suc k) le =
      let (b, r', same) = loads s r k (omega arith) in
      let b' : ℕ → ℕ = update b k (seen_word d s.flag k (s.buf k)) in
      let next_word : k + 1 ≡ suc k = omega arith in
      (
        b',
        subst (λ n. Reach atomic d at junk (record s { incoming = b'; receiver = moving n }))
            next_word (then_step r' (load refl (omega arith))),
        λ j lt plain. elim (ℕ_discrete k j) [
          | yes now ↦
              subst (λ i. update b k (seen_word d s.flag k (s.buf k)) i ≡ s.buf i) now
                (update_self b k (seen_word d s.flag k (s.buf k))
                  ∙ seen_word_plain d s.flag k (s.buf k) (omega arith))
          | no before ↦
              update_ne b k j (seen_word d s.flag k (s.buf k)) before ∙ same j (omega arith) plain
        ],
      )

  -- For messages of `d` words: if `memcpy` stores the word with the state as the `k`-th and another one
  -- as a later one, and no word twice up to there, then for every message some interleaving receives
  -- it with that word as it was in the buffer before, with USE_ATOMIC or without it.
  pub message_torn :
      (k later : ℕ) (m : ℕ → ℕ)
      → k < later
      → later < d
      → at k + 1 ≡ d
      → at later < d
      → ((j : ℕ) → j < k → at j + 1 < d)
      → ((j : ℕ) → j < later → at j ≢ at later)
      → (s : Slot) × Reach atomic d at junk s
        × (s.received ≡ 1)
        × (s.log 0 ≡ m)
        × (s.got 0 (at later) ≡ junk (at later))
  message_torn k later m before inside state_word word plain once =
      let s₀ : Slot = record (fresh_slot atomic d at junk) {
        flag = if atomic then 2 else 0;
        outgoing = m;
      } in
      let (b, r₁, kept) =
        stores s₀ (at later) (then_step (then_step begin (call_send m refl)) (find_empty refl refl))
          k (omega arith) (λ j lt. (plain j lt, once j (omega arith))) in
      let b₂ : ℕ → ℕ = update b (at k) (m (at k)) in
      let s₂ : Slot = record s₀ {
        flag = if atomic then 2 else 1;
        buf = b₂;
        sender = moving (k + 1);
        sent = 1;
        log = update s₀.log 0 m;
      } in
      let (inc, r₃, same) =
        loads s₂
          (then_step
            (then_step (then_step r₁ (store_state refl (omega arith) state_word)) (call_recv refl))
            (find_messg refl refl))
          d (omega arith) in
      (
        _,
        then_step r₃ (empty refl),
        refl,
        refl,
        same (at later) word (omega (arith, once k before))
            ∙ update_ne b (at k) (at later) (m (at k)) (once k before)
            ∙ kept,
      )
