-- ===== src/Sparc/Wait/Walk.antt =====
-- The part of `ssmp_barrier_wait_platf` of src/arch/sparc/ssmp_arch.c behind the counting, beside the step
-- relation of the barrier, which was written for src/arch/x86/ssmp_arch.c.
use ssmp.Base.{
  ℕ, zero, suc, ◌+◌, ◌-◌, ◌^◌, ◌≡◌, ◌≢◌, refl, sym, subst, arith, Option, some, if◌then◌else◌, ◌==◌,
  ℕ_discrete,
}
use ssmp.Base.Outcome.{done_injective, done, ◌>>=◌, >>=-done}
use ssmp.Poll.{Env, await}
use ssmp.Barrier.{u32}
use ssmp.Barrier.System.{
  Pc, outside, entering, arriving, arrived, waiting, leaving, left, Proc, Shared, Move, call, hold,
  enter, arrive, open_gate, early, wait, pass, leave, close_gate, late,
}
use ssmp.Sparc.Wait.{is_shut, is_open, Others, take_ticket, give_ticket}

if_same : (i j : ℕ) → i ≡ j → (x y : Shared) → (if i == j then x else y) ≡ x
if_same i j e x y = ground arith

if_differ : (i j : ℕ) → i ≢ j → (x y : Shared) → (if i == j then x else y) ≡ y
if_differ i j ne x y = ground arith

-- A run of one process, between steps of others.
pub data Walk (cnt : Option ℕ) (others : Shared → Shared → Type 0) (m : Shared) (p : Proc)
    : Shared → Proc → Type 0 where
  at_start : Walk cnt others m p m p
  own_step :
      {m' m'' : Shared} {p' p'' : Proc}
      → Walk cnt others m p m' p'
      → Move cnt m' p' m'' p''
      → Walk cnt others m p m'' p''
  other_step :
      {m' m'' : Shared} {p' : Proc}
      → Walk cnt others m p m' p'
      → others m' m''
      → Walk cnt others m p m'' p'

abbrev pub at_pc : Pc → ℕ → ℕ → Proc
at_pc pc a q = record { pc = pc; arrivals = a; passes = q }

module _ (cnt : Option ℕ) (others : Shared → Shared → Type 0) (m₀ : Shared) (p₀ : Proc) where
  abbrev From : Shared → Proc → Type 0
  From m p = Walk cnt others m₀ p₀ m p

  module _ (env : Env Shared) (ok : (t : ℕ) (m : Shared) → others m (env t m)) (a q : ℕ) where
    entering-Walk :
        (num_part fuel t : ℕ) (m : Shared) {m' : Shared}
        → From m (at_pc (entering num_part) a q)
        → await env is_shut fuel t m ≡ done m'
        → From m' (at_pc (arriving num_part) a q)
    unfolding await is_shut
    entering-Walk num_part zero t m r h = absurd (cc)
    entering-Walk num_part (suc fuel) t m {m'} r h = elim (ℕ_discrete (env t m).cleared 1) [
      | yes raised ↦
          entering-Walk num_part fuel (suc t) (env t m)
            (own_step (other_step r (ok t m)) (hold raised)) (ground arith)
      | no shut ↦
          let same : env t m ≡ m' = ground arith in
          subst (λ x. From x (at_pc (arriving num_part) a q)) same
            (own_step (other_step r (ok t m)) (enter shut))
    ]

    waiting-Walk :
        (fuel t : ℕ) (m : Shared) {m' : Shared}
        → From m (at_pc waiting a q)
        → await env is_open fuel t m ≡ done m'
        → From m' (at_pc leaving a (q + 1))
    unfolding await is_open
    waiting-Walk zero t m r h = absurd (cc)
    waiting-Walk (suc fuel) t m {m'} r h = elim (ℕ_discrete (env t m).cleared 0) [
      | yes shut ↦
          waiting-Walk fuel (suc t) (env t m) (own_step (other_step r (ok t m)) (wait shut))
            (ground arith)
      | no opened ↦
          let same : env t m ≡ m' = ground arith in
          subst (λ x. From x (at_pc leaving a (q + 1))) same
            (own_step (other_step r (ok t m)) (pass opened))
    ]

  module _ (o : Others) (ok : (k : ℕ) (m : Shared) → others m (o.gap k m)) (a q : ℕ) where
    take_ticket-Walk :
        (num_part : ℕ) (m : Shared)
        → From m (at_pc (arriving num_part) a q)
        → From (take_ticket o num_part m) (at_pc waiting (a + 1) q)
    unfolding take_ticket
    take_ticket-Walk num_part m r =
        let before : Shared = o.gap 0 m in
        let my_ticket : ℕ = u32 (before.ticket + 1) in
        let after_it : Shared = o.gap 1 (record before { ticket = my_ticket }) in
        let arrived_there : From after_it (at_pc (arrived num_part my_ticket) (a + 1) q) =
          other_step (own_step (other_step r (ok 0 m)) arrive) (ok 1 _) in
        let goal : Shared → Type 0 = λ x. From x (at_pc waiting (a + 1) q) in
        elim (ℕ_discrete my_ticket num_part) [
          | yes last ↦
              subst goal (sym (if_same my_ticket num_part last _ _))
                (own_step arrived_there (open_gate last))
          | no not_last ↦
              subst goal (sym (if_differ my_ticket num_part not_last _ _))
                (own_step arrived_there (early not_last))
        ]

    give_ticket-Walk :
        (m : Shared) → From m (at_pc leaving a q) → From (give_ticket o m) (at_pc outside a q)
    unfolding give_ticket
    give_ticket-Walk m r =
        let before : Shared = o.gap 2 m in
        let my_ticket : ℕ = u32 (before.ticket + 2 ^ 32 - 1) in
        let after_it : Shared = o.gap 3 (record before { ticket = my_ticket }) in
        let left_there : From after_it (at_pc (left my_ticket) a q) =
          other_step (own_step (other_step r (ok 2 m)) leave) (ok 3 _) in
        let goal : Shared → Type 0 = λ x. From x (at_pc outside a q) in
        elim (ℕ_discrete my_ticket 0) [
          | yes last ↦
              subst goal (sym (if_same my_ticket 0 last _ _))
                (own_step left_there (close_gate last))
          | no not_last ↦
              subst goal (sym (if_differ my_ticket 0 not_last _ _))
                (own_step left_there (late not_last))
        ]

-- the part of the call behind the counting, for one that takes part
pub call-Walk :
    (o : Others) (others : Shared → Shared → Type 0)
    → ((i t : ℕ) (m : Shared) → others m (o.loop i t m))
    → ((k : ℕ) (m : Shared) → others m (o.gap k m))
    → (a q num_part fuel : ℕ) (m m' : Shared)
    → (await (o.loop 0) is_shut fuel 0 m >>= λ shut.
        await (o.loop 1) is_open fuel 0 (take_ticket o num_part shut) >>= λ opened.
        done (give_ticket o opened))
      ≡ done m'
    → Walk (some num_part) others m (at_pc outside a q) m' (at_pc outside (a + 1) (q + 1))
call-Walk o others ok_loop ok_gap a q num_part fuel m m' ret =
    let (shut, first, ret₁) = >>=-done (await (o.loop 0) is_shut fuel 0 m) _ ret in
    let (opened, second, ret₂) =
      >>=-done (await (o.loop 1) is_open fuel 0 (take_ticket o num_part shut)) _ ret₁ in
    let cnt : Option ℕ = some num_part in
    let p₀ : Proc = at_pc outside a q in
    let called : Walk cnt others m p₀ m (at_pc (entering num_part) a q) =
      own_step at_start (call refl) in
    let r₁ =
      entering-Walk cnt others m p₀ (o.loop 0) (ok_loop 0) a q num_part fuel 0 m called first in
    let r₂ = take_ticket-Walk cnt others m p₀ o ok_gap a q num_part shut r₁ in
    let r₃ =
      waiting-Walk cnt others m p₀ (o.loop 1) (ok_loop 1) (a + 1) q fuel 0
        (take_ticket o num_part shut) r₂ second in
    let r₄ = give_ticket-Walk cnt others m p₀ o ok_gap (a + 1) (q + 1) opened r₃ in
    subst (λ x. Walk cnt others m p₀ x (at_pc outside (a + 1) (q + 1))) (done_injective ret₂) r₄
