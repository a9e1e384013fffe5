-- ===== src/Slot/Invariant/Sender.antt =====
-- The steps of `ssmp_send_platf` of src/platform/generic/ssmp_platf.c keep the invariant.
use ssmp.Base.{◌-◌, ℕ, ◌+◌, ◌<◌, ◌≡◌, ◌≢◌, refl, arith, ap, Bool, if◌then◌else◌, ◌∙◌}
use ssmp.Base.Family.{update}
use ssmp.Slot.{away, looking, moving, Slot}
use ssmp.Slot.Invariant.Defs.{moved, storing, loading, IsLast, Inv, loading-moved, loading_small}

module _ (atomic : Bool) (d : ℕ) (at : ℕ → ℕ) (l : IsLast d at) (s : Slot)
    (inv : Inv atomic d at s) where
  not_last : (k : ℕ) → k < d → at k + 1 < d → k + 1 < d
  not_last k lt more =
      let (k', lt', e) = l.every (d - 1) (omega (arith, l.nonempty)) in
      let end : k' + 1 ≡ d = l.last k' lt' (omega (arith, e, l.nonempty)) in
      ground (arith, e, ap at {x = k} {y = k'})

  pub call_send-Inv :
      (m : ℕ → ℕ) → s.sender ≡ away → Inv atomic d at (record s { sender = looking; outgoing = m })
  call_send-Inv m e = record {
    one = omega (arith, inv.one);
    taken = λ e. absurd (omega arith);
    held = inv.held;
    settled = λ e'. inv.settled (ground (arith, e, e'));
    sender_within = omega arith;
    receiver_within = inv.receiver_within;
    counts = inv.counts;
    stored = λ k lt. absurd (omega arith);
    loaded = inv.loaded;
    full = inv.full;
    history = inv.history;
  }

  pub find_empty-Inv :
      s.sender ≡ looking
      → s.flag ≡ 0
      → Inv atomic d at (record s { flag = if atomic then 2 else 0; sender = moving 0 })
  find_empty-Inv e free =
      let alone : loading s.receiver ≢ 1 = λ e'. ground (arith, inv.held e') in
      record {
        one = ground (arith, alone, loading_small s.receiver);
        taken = λ _. refl;
        held = λ e'. absurd (alone e');
        settled = λ e'. absurd (ground (arith, l.nonempty, e'));
        sender_within = omega arith;
        receiver_within = inv.receiver_within;
        counts = ground (arith, alone, inv.counts, free);
        stored = λ k lt. absurd (omega arith);
        loaded = inv.loaded;
        full = λ j e'. absurd (ground (arith, alone));
        history = inv.history;
      }

  module _ {k : ℕ} (e : s.sender ≡ moving k) (lt : k < d) where
    mine : storing d s.sender ≡ 1
    mine = ap (storing d) e ∙ ground arith

    k_moved : moved s.sender ≡ k
    k_moved = ap moved e

    quiet : loading s.receiver ≡ 0
    quiet = omega (arith, inv.one, mine)

    none_loaded : (j : ℕ) → j < moved s.receiver → 0 < 0
    none_loaded j below = omega (arith, loading-moved s.receiver j below, quiet)

    pub store-Inv :
        at k + 1 < d
        → Inv atomic d at
            (record s { buf = update s.buf (at k) (s.outgoing (at k)); sender = moving (k + 1) })
    store-Inv more = record {
      one = ground (arith, quiet);
      taken = λ _. inv.taken mine;
      held = inv.held;
      settled = λ e'. absurd (ground (arith, not_last k lt more, e'));
      sender_within = omega arith;
      receiver_within = inv.receiver_within;
      counts = inv.counts;
      stored = λ j below. ground (
        arith,
        inv.stored j,
        k_moved,
        ap s.outgoing {x = at k} {y = at j},
        ap at {x = k} {y = j},
      );
      loaded = λ j below. absurd (omega (arith, none_loaded j below));
      full = λ j e'. absurd (ground (arith, quiet, inv.taken mine));
      history = inv.history;
    }

    empty_before : s.sent ≡ s.received
    empty_before = ground (arith, inv.counts, quiet, inv.taken mine)

    all_stored :
        k + 1 ≡ d → (j : ℕ) → j < d → update s.buf (at k) (s.outgoing (at k)) j ≡ s.outgoing j
    all_stored end j below =
        let (k', lt', e') = l.every j below in
        ground (
          arith,
          inv.stored k',
          k_moved,
          ap s.outgoing {x = at k} {y = j},
          ap s.outgoing e',
          ap s.buf e',
          ap at {x = k'} {y = k},
        )

    pub store_state-Inv :
        at k + 1 ≡ d
        → Inv atomic d at (record s {
          flag = 1;
          buf = update s.buf (at k) (s.outgoing (at k));
          sender = moving (k + 1);
          sent = s.sent + 1;
          log = update s.log s.sent s.outgoing;
        })
    store_state-Inv is_state =
        let end : k + 1 ≡ d = l.last k lt is_state in
        record {
          one = ground (arith, quiet, end);
          taken = λ e'. absurd (ground (arith, end));
          held = λ e'. absurd (omega (arith, quiet));
          settled = λ e'. omega arith;
          sender_within = omega arith;
          receiver_within = inv.receiver_within;
          counts = ground (arith, quiet, empty_before);
          stored = λ j below. ground (
            arith,
            inv.stored j,
            k_moved,
            ap s.outgoing {x = at k} {y = at j},
            ap at {x = k} {y = j},
          );
          loaded = λ j below. absurd (omega (arith, none_loaded j below));
          full = λ j e' below. ground (arith, empty_before, all_stored end j below);
          history = λ i j lt' below. ground (arith, inv.history i j lt' below, empty_before);
        }

  pub end_send-Inv : s.sender ≡ moving d → Inv atomic d at (record s { sender = away })
  end_send-Inv e = record {
    one = omega (arith, inv.one);
    taken = λ e'. absurd (omega arith);
    held = inv.held;
    settled = λ e'. inv.settled (ground (arith, e, e'));
    sender_within = omega arith;
    receiver_within = inv.receiver_within;
    counts = inv.counts;
    stored = λ k lt. absurd (omega arith);
    loaded = inv.loaded;
    full = inv.full;
    history = inv.history;
  }
