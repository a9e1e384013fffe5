-- ===== src/Barrier/Invariant.antt =====
-- What holds of a barrier at every step of `ssmp_barrier_wait_platf`: how the ticket, the gate and
-- the places of the processes fit together.
mod Defs
mod Moves
pub use Defs.*
use Moves.{Move-Inv}
use ssmp.Base.{ℕ, ◌*◌, ◌≤◌, ◌≡◌, refl, arith}
use ssmp.Base.Family.{total, total-const, total_mono}
use ssmp.Barrier.{Barrier}
use ssmp.Barrier.Count.{weight, everyone}
use ssmp.Barrier.System.{
  System, Step, pick, start_state, Reach, start, next, Proc, Shared, Pc, outside, entering,
  arriving, arrived, waiting, leaving, left,
}

module _ (b : Barrier) (n : ℕ) (usable : IsUsable b n) where
  nobody : (w : Proc → ℕ) → w (start_state.proc 0) ≡ 0 → total w n start_state.proc ≡ 0
  nobody w e = omega (arith, total-const w n 0 start_state.proc (λ _. e))

  start-Inv : Inv b n start_state.mem start_state.proc
  start-Inv = record {
    bit = omega arith;
    tickets = omega (arith, nobody inside refl);
    openers = ground (arith, usable.someone, nobody (opener (everyone (weight b) n)) refl);
    closers = ground (arith, nobody closer refl);
    local = λ i lt. ground arith;
  }

  Step-Inv : {s t : System} → Step b n s t → Inv b n s.mem s.proc → Inv b n t.mem t.proc
  Step-Inv (pick i lt mv) inv = Move-Inv usable inv i lt mv

  -- The invariant holds in every state that the processes reach.
  pub Reach-Inv : {s : System} → Reach b n s → Inv b n s.mem s.proc
  Reach-Inv start = start-Inv
  Reach-Inv (next r st) = Step-Inv st (Reach-Inv r)

  inside-Local : (w k : ℕ) (m : Shared) (p : Proc) → Local w k m p → inside p ≤ w
  inside-Local w k m p local = go p.pc p.arrivals p.passes local
    where
      go : (pc : Pc) (a q : ℕ) → LocalAt w k m pc a q → inside_at pc ≤ w
      go outside a q l = omega arith
      go (entering np) a q l = omega arith
      go (arriving np) a q l = omega arith
      go (arrived np my) a q l = omega arith
      go waiting a q l = omega arith
      go leaving a q l = omega arith
      go (left my) a q l = omega arith

  -- For a barrier whose colors are 0 or 1, with fewer than 2^32 processes of which one takes part: in every
  -- state that the processes reach, `cleared` is 0 or 1 and `ticket` is the number of processes between
  -- their add-and-fetch and their sub-and-fetch, which is at most the number of participants; so the
  -- ticket never wraps around.
  pub tickets_counted :
      {s : System}
      → Reach b n s
      → (s.mem.cleared ≤ 1)
        × (s.mem.ticket ≡ total inside n s.proc)
        × (s.mem.ticket ≤ everyone (weight b) n)
  tickets_counted {s} r =
      let inv : Inv b n s.mem s.proc = Reach-Inv r in
      (
        inv.bit,
        inv.tickets,
        omega (
          arith,
          inv.tickets,
          total_mono inside (λ (x : ℕ). x) n s.proc (weight b)
              (λ i lt.
                inside-Local (weight b i) (everyone (weight b) n) s.mem (s.proc i)
                  (inv.local i lt)),
        ),
      )
