-- ===== src/Slot/Invariant/Receiver.antt =====
-- The steps of `ssmp_recv_from_platf` of src/platform/generic/ssmp_platf.c keep the invariant.
use ssmp.Base.{ℕ, ◌+◌, ◌<◌, ◌≡◌, ◌≢◌, refl, arith, ap, Bool, if◌then◌else◌, ◌∙◌, subst, ℕ_discrete}
use ssmp.Base.Family.{update, update_self, update_ne}
use ssmp.Slot.Words.{seen_word}
use ssmp.Slot.{away, looking, moving, Slot}
use ssmp.Slot.Invariant.Defs.{moved, storing, loading, holds, claimed, IsLast, Inv, storing_small}

module _ (atomic : Bool) (d : ℕ) (at : ℕ → ℕ) (l : IsLast d at) (s : Slot)
    (inv : Inv atomic d at s) where
  pub call_recv-Inv : s.receiver ≡ away → Inv atomic d at (record s { receiver = looking })
  call_recv-Inv e =
      let none : loading s.receiver ≡ 0 = ap loading e in
      record {
        one = omega (arith, inv.one);
        taken = inv.taken;
        held = λ e'. absurd (omega arith);
        settled = λ e'. inv.settled (ground (arith, e, e'));
        sender_within = inv.sender_within;
        receiver_within = omega arith;
        counts = ground (arith, inv.counts, none);
        stored = inv.stored;
        loaded = λ j below. absurd (omega arith);
        full = λ j e' below. inv.full j (ground (arith, none, e')) below;
        history = inv.history;
      }

  pub find_messg-Inv :
      s.receiver ≡ looking
      → s.flag ≡ 1
      → Inv atomic d at (record s { flag = if atomic then 2 else 1; receiver = moving 0 })
  find_messg-Inv e up =
      let none : loading s.receiver ≡ 0 = ap loading e in
      let still : storing d s.sender ≢ 1 = λ e'. ground (arith, inv.taken e') in
      record {
        one = ground (arith, still, storing_small d s.sender);
        taken = λ e'. absurd (still e');
        held = λ _. refl;
        settled = λ e'. absurd (omega (arith, e'));
        sender_within = inv.sender_within;
        receiver_within = omega arith;
        counts = ground (arith, inv.counts, none, up);
        stored = inv.stored;
        loaded = λ j below. absurd (omega arith);
        full = λ j e' below. inv.full j (ground (arith, none, up)) below;
        history = inv.history;
      }

  module _ {k : ℕ} (e : s.receiver ≡ moving k) where
    theirs : loading s.receiver ≡ 1
    theirs = ap loading e

    k_loaded : moved s.receiver ≡ k
    k_loaded = ap moved e

    in_hand : holds s ≡ 1
    in_hand = ground (arith, theirs)

    pub load-Inv :
        k < d
        → Inv atomic d at (record s {
          incoming = update s.incoming k (seen_word d s.flag k (s.buf k));
          receiver = moving (k + 1);
        })
    load-Inv lt =
        let Loads : ℕ → Type 0 = λ j.
          update s.incoming k (seen_word d s.flag k (s.buf k)) j
          ≡ seen_word d (claimed atomic) j (s.buf j) in
        let first : Loads k =
          update_self s.incoming k (seen_word d s.flag k (s.buf k))
          ∙ ap (λ v. seen_word d v k (s.buf k)) (inv.held theirs) in
        record {
          one = omega (arith, inv.one, theirs);
          taken = inv.taken;
          held = λ _. inv.held theirs;
          settled = λ e'. absurd (omega (arith, e'));
          sender_within = inv.sender_within;
          receiver_within = omega arith;
          counts = omega (arith, inv.counts, in_hand);
          stored = inv.stored;
          loaded = λ j below. elim (ℕ_discrete k j) [
            | yes now ↦ subst Loads now first
            | no before ↦
                update_ne s.incoming k j (seen_word d s.flag k (s.buf k)) before
                ∙ inv.loaded j (omega (arith, k_loaded))
          ];
          full = λ j e' below. inv.full j in_hand below;
          history = inv.history;
        }

    whole :
        k ≡ d → (j : ℕ) → j < d → s.incoming j ≡ seen_word d (claimed atomic) j (s.log s.received j)
    whole all j below =
        inv.loaded j (omega (arith, k_loaded))
        ∙ ap (seen_word d (claimed atomic) j) (inv.full j in_hand below)

    pub empty-Inv :
        k ≡ d
        → Inv atomic d at (record s {
          flag = 0;
          receiver = away;
          received = s.received + 1;
          got = update s.got s.received s.incoming;
        })
    empty-Inv all = record {
      one = omega (arith, inv.one, theirs);
      taken = λ e'. absurd (omega (arith, inv.one, theirs));
      held = λ e'. absurd (omega arith);
      settled = λ e'. omega arith;
      sender_within = inv.sender_within;
      receiver_within = omega arith;
      counts = omega (arith, inv.counts, in_hand);
      stored = inv.stored;
      loaded = λ j below. absurd (omega arith);
      full = λ j e'. absurd (omega arith);
      history = λ i j lt below. elim (ℕ_discrete s.received i) [
        | yes newest ↦
            subst
              (λ n.
                update s.got s.received s.incoming n j ≡ seen_word d (claimed atomic) j (s.log n j))
              newest (ap (λ f. f j) (update_self s.got s.received s.incoming) ∙ whole all j below)
        | no older ↦
            ap (λ f. f j) (update_ne s.got s.received i s.incoming older)
            ∙ inv.history i j (omega arith) below
      ];
    }
