-- ===== src/BarrierTest/Crossing.antt =====
-- All processes of the test come to the same barriers and through them, for any number of rounds.
use native.Mathlib.Nat.{mod-eq_of_lt}
use ssmp.Base.{
  ℕ, zero, suc, ◌-◌, ◌^◌, ◌≤◌, ◌<◌, ◌≡◌, ◌≢◌, refl, arith, Bool, List, ◌∷◌, some, replicate, drop,
  ap, sym, subst, ◌∙◌, ℕ_discrete,
}
use ssmp.Base.Family.{update, update_self, update_ne}
use ssmp.Base.Family.{le-total}
use ssmp.Barrier.Count.{weight}
use ssmp.Barrier.System.{System, Reach}
use ssmp.Barrier.Invariant.{IsUsable}
use ssmp.Barrier.Leave.{IsLeft}
use ssmp.Barrier.Crossing.{all_cross}
use ssmp.Base.Int.{pos}
use ssmp.Base.Outcome.{done, >>=_returns}
use ssmp.Barrier.{color_app, ssmp_num_barriers, get_barrier}
use ssmp.Broadcast.{sends, broadcast, broadcast_lem}
use ssmp.Message.{Msg, Slots, ssmp_buf_empty, ssmp_buf_messg, state}
use ssmp.Message.Laws.{state-set_state, words-set_state}
use ssmp.Generic
use ssmp.Generic.Alone.{recv_from_alone}
use ssmp.Helpers.Random.{Seeds, xorshf96}
use ssmp.BarrierTest.{
  draw, with_w0, w0_of, root_branch, other_branch, others_turns, until_wait, Rounds, no_more,
  one_more, barrier_at,
}

-- a buffer with a message for the barrier `w`
abbrev Holds : ℕ → Msg → Type 0
Holds w m = (state m ≡ ssmp_buf_messg) × ((ws : List ℕ) × (m.words ≡ w ∷ ws))

abbrev AreFree : ℕ → Slots → Type 0
AreFree n s = (i : ℕ) → i < n → i ≢ 0 → state (s i) ≡ ssmp_buf_empty

barrier_at-IsUsable : (barr n : ℕ) → 2 ≤ n → n < 2 ^ 32 → IsUsable (barrier_at barr) n
unfolding color_app
barrier_at-IsUsable barr n two few = record {
  few = few;
  binary = λ i. ground arith;
  someone = elim (ℕ_discrete barr 1) [
    | yes one ↦
        let part : weight (barrier_at barr) 1 ≡ 1 = ground (arith, one) in
        omega (arith, part, le-total (λ x. x) n (weight (barrier_at barr)) 1 (omega arith))
    | no other ↦
        let part : weight (barrier_at barr) 0 ≡ 1 = ground (arith, other) in
        omega (arith, part, le-total (λ x. x) n (weight (barrier_at barr)) 0 (omega arith))
  ];
}

draw-lt : (seeds : Seeds) → draw seeds < ssmp_num_barriers
unfolding draw
draw-lt seeds = omega arith

get_barrier-draw : (seeds : Seeds) → get_barrier (pos (draw seeds)) ≡ some (pos (draw seeds))
unfolding get_barrier
get_barrier-draw seeds = ground (arith, draw-lt seeds)

with_w0-words : (w : ℕ) (m : Msg) → w < 2 ^ 32 → (ws : List ℕ) × ((with_w0 w m).words ≡ w ∷ ws)
unfolding with_w0
with_w0-words w m lt =
    (drop 1 m.words, ap (λ x. x ∷ drop 1 m.words) (mod-eq_of_lt {n = w} {m = 2 ^ 32} lt))

w0_of-words : (m : Msg) (w : ℕ) (ws : List ℕ) → m.words ≡ w ∷ ws → w0_of m ≡ done w
unfolding w0_of
w0_of-words m w ws e = rw e refl

module _ (atomic : Bool) (fuel : ℕ) where
  other_branch_lem :
      (w : ℕ) (s : Slots)
      → Holds w (s 0)
      → (s' : Slots) × (other_branch atomic fuel s ≡ done (w, s')) × (state (s' 0) ≡ ssmp_buf_empty)
  unfolding other_branch
  other_branch_lem w s (full, (ws, e)) =
      let (m, s', ret, taken) = recv_from_alone atomic fuel s 0 full in
      (
        s',
        >>=_returns (Generic.recv_from atomic (λ _ t. t) (suc fuel) 0 s) _ ret
            (>>=_returns (w0_of m) _ (w0_of-words m w ws (taken.words ∙ e)) refl),
        taken.emptied,
      )

  root_branch_lem :
      (n : ℕ) (seeds : Seeds) (m : Msg) (s : Slots)
      → AreFree n s
      → (t : Slots) × (root_branch atomic fuel n seeds m s ≡ done (draw seeds, t))
        × ((i : ℕ) → i < n → i ≢ 0 → Holds (draw seeds) (t i))
  unfolding root_branch
  root_branch_lem n seeds m s free =
      let msg : Msg = with_w0 (draw seeds) m in
      let (m', t, ret, new, old) = broadcast_lem atomic fuel 0 n msg s free in
      let (ws, words) = with_w0-words (draw seeds) m (omega (arith, draw-lt seeds)) in
      (
        t,
        >>=_returns (broadcast (sends atomic fuel 0) 0 n msg s) _ ret refl,
        λ i lt ne. (
          ap state (new i lt ne) ∙ state-set_state ssmp_buf_messg msg (omega arith),
          (
            ws,
            ap (λ (x : Msg). x.words) (new i lt ne) ∙ words-set_state ssmp_buf_messg msg ∙ words,
          ),
        ),
      )

  others_turns_lem :
      (w k : ℕ) (t : Slots)
      → ((i : ℕ) → i < suc k → i ≢ 0 → Holds w (t i))
      → (t' : Slots) × (others_turns atomic fuel k t ≡ done (replicate k w, t'))
        × AreFree (suc k) t'
        × ((i : ℕ) → k < i → t' i ≡ t i)
  unfolding others_turns
  others_turns_lem w zero t full = (t, refl, (λ i lt ne. absurd (omega arith)), λ i lt. refl)
  others_turns_lem w (suc k) t full =
      let (t', ret, free, old) = others_turns_lem w k t (λ i lt ne. full i (omega arith) ne) in
      let there : Holds w (t' (suc k)) =
        subst (Holds w) (sym (old (suc k) (omega arith)))
          (full (suc k) (omega arith) (omega arith)) in
      let (s, got, emptied) = other_branch_lem w (λ _. t' (suc k)) there in
      (
        update t' (suc k) (s 0),
        >>=_returns (others_turns atomic fuel k t) _ ret
            (>>=_returns (other_branch atomic fuel (λ _. t' (suc k))) _ got refl),
        λ i lt ne. elim (ℕ_discrete (suc k) i) [
          | yes here ↦
              subst (λ i. state (update t' (suc k) (s 0) i) ≡ ssmp_buf_empty) here
                (ap state (update_self t' (suc k) (s 0)) ∙ emptied)
          | no before ↦ ap state (update_ne t' (suc k) i (s 0) before) ∙ free i (omega arith) ne
        ],
        λ i lt. update_ne t' (suc k) i (s 0) (omega arith) ∙ old i (omega arith),
      )

  until_wait_lem :
      (n : ℕ) (seeds : Seeds) (m : Msg) (s : Slots)
      → 0 < n
      → AreFree n s
      → (t : Slots) × (until_wait atomic fuel n seeds m s
          ≡ done (draw seeds, replicate (n - 1) (draw seeds), t))
        × AreFree n t
  unfolding until_wait
  until_wait_lem n seeds m s some_procs free =
      let (t, sent, full) = root_branch_lem n seeds m s free in
      let (t', got, free', old) =
        others_turns_lem (draw seeds) (n - 1) t (λ i lt ne. full i (omega arith) ne) in
      (
        t',
        >>=_returns (root_branch atomic fuel n seeds m s) _ sent
            (>>=_returns (others_turns atomic fuel (n - 1) t) _ got refl),
        λ i lt ne. free' i (omega arith) ne,
      )

  -- The barrier test. For two processes or more, fewer than 2^32, any seeds and any number of rounds: let
  -- the buffers from process 0 to the others be empty, and each barrier of `ssmp_init` in a state that it
  -- reaches, with nobody in it. Then the loop can be run to its end in all processes, when each sends and
  -- receives with nobody else at work: in each round all come to one barrier, which `ssmp_get_barrier`
  -- finds, and steps of the barrier lead all of them through it. The buffers are empty again at the end, and
  -- nobody is in a barrier.
  pub test_loop_lem :
      (n reps : ℕ) (seeds : Seeds) (junk : ℕ → Msg) (s : Slots) (w : ℕ → System)
      → 2 ≤ n
      → n < 2 ^ 32
      → ((i : ℕ) → i < n → i ≢ 0 → state (s i) ≡ ssmp_buf_empty)
      → ((j : ℕ) → Reach (barrier_at j) n (w j) × IsLeft n (w j))
      → (t : Slots) × (w' : ℕ → System) × Rounds atomic fuel n junk reps seeds s w t w'
        × ((i : ℕ) → i < n → i ≢ 0 → state (t i) ≡ ssmp_buf_empty)
        × ((j : ℕ) → Reach (barrier_at j) n (w' j) × IsLeft n (w' j))
  test_loop_lem n zero seeds junk s w two few free idle = (s, w, no_more, free, idle)
  test_loop_lem n (suc reps) seeds junk s w two few free idle =
      let barr : ℕ = draw seeds in
      let (t, one, free') = until_wait_lem n seeds (junk reps) s (omega arith) free in
      let (c, steps, r, outs, passed) =
        all_cross (barrier_at-IsUsable barr n two few) (w barr) (idle barr).0 (idle barr).1 in
      let (t', w', rounds, free'', idle') =
        test_loop_lem n reps (xorshf96 seeds) junk t (update w barr c) two few free' (λ j.
          elim (ℕ_discrete barr j) [
            | yes here ↦
                subst
                  (λ j. Reach (barrier_at j) n (update w barr c j) × IsLeft n (update w barr c j))
                  here
                  (subst (λ x. Reach (barrier_at barr) n x × IsLeft n x)
                    (sym (update_self w barr c)) (r, outs))
            | no there ↦
                subst (λ x. Reach (barrier_at j) n x × IsLeft n x)
                  (sym (update_ne w barr j c there)) (idle j)
          ]) in
      (
        t',
        w',
        one_more one
            (record {
              exists = get_barrier-draw seeds;
              steps = steps;
              come = (idle barr).1;
              leave = outs;
              passed = passed;
            })
            rounds,
        free'',
        idle',
      )
