-- ===== src/Barrier/Leave.antt =====
-- The way out of a barrier of src/arch/x86/ssmp_arch.c, when all who take part have called.
use ssmp.Base.{
  ℕ, zero, suc, ◌≤◌, ◌<◌, ◌≡◌, ◌≢◌, ◌⊎◌, inl, inr, refl, arith, ap, subst, sym, ◌∙◌, Option,
  ℕ_discrete,
}
use ssmp.Base.Family.{total, total_find, update, update_self, update_ne, total-update}
use ssmp.Barrier.{Barrier, count_part}
use ssmp.Barrier.Count.{weight, everyone}
use ssmp.Barrier.System.{
  Pc, outside, entering, arriving, arrived, waiting, leaving, left, Proc, Shared, System, Reach,
  next, Step, pick, Move, skip, call, hold, enter, arrive, open_gate, early, wait, pass, leave,
  close_gate, late,
}
use ssmp.Barrier.Invariant.{IsUsable, Inv, Reach-Inv, Local}
use ssmp.Barrier.Progress.{rank, rank_at, can_move, can_move_at, advance, not_stuck}

-- the steps from one state to another
pub data Run (b : Barrier) (n : ℕ) (s : System) : System → Type 0 where
  stay : Run b n s s
  go_on : {t u : System} → Run b n s t → Step b n t u → Run b n s u

pub Reach-Run : {b : Barrier} {n : ℕ} {s t : System} → Reach b n s → Run b n s t → Reach b n t
Reach-Run r stay = r
Reach-Run r (go_on run st) = next (Reach-Run r run) st

-- nobody is in the barrier
abbrev pub IsLeft : ℕ → System → Type 0
IsLeft n s = (i : ℕ) → i < n → (s.proc i).pc ≡ outside

-- How often a process has arrived, when it has been called for the time after `k`.
abbrev pub HasArrived : (k : ℕ) → Pc → ℕ → Type 0
HasArrived k (entering _) a = a ≡ k
HasArrived k (arriving _) a = a ≡ k
HasArrived k _ a = a ≡ suc k

Move-HasArrived :
    (cnt : Option ℕ) (m m' : Shared) (q q' : Proc) (k : ℕ)
    → Move cnt m q m' q'
    → rank q' < rank q
    → HasArrived k q.pc q.arrivals
    → HasArrived k q'.pc q'.arrivals
unfolding rank
Move-HasArrived cnt m m' q q' k (skip e) less h = absurd (omega arith)
Move-HasArrived cnt m m' q q' k (call e) less h = absurd (omega arith)
Move-HasArrived cnt m m' q q' k (hold e) less h = absurd (omega arith)
Move-HasArrived cnt m m' q q' k (enter e) less h = h
Move-HasArrived cnt m m' q q' k arrive less h = omega (arith, h)
Move-HasArrived cnt m m' q q' k (open_gate e) less h = h
Move-HasArrived cnt m m' q q' k (early e) less h = h
Move-HasArrived cnt m m' q q' k (wait e) less h = absurd (omega arith)
Move-HasArrived cnt m m' q q' k (pass e) less h = h
Move-HasArrived cnt m m' q q' k leave less h = h
Move-HasArrived cnt m m' q q' k (close_gate e) less h = h
Move-HasArrived cnt m m' q q' k (late e) less h = h

abbrev pub AllArrived : (b : Barrier) (n k : ℕ) → System → Type 0
AllArrived b n k s =
    (i : ℕ) → i < n → weight b i ≢ 0 → HasArrived k (s.proc i).pc (s.proc i).arrivals

-- the accesses that all processes together still make
abbrev pub ranks : ℕ → System → ℕ
ranks n s = total rank n s.proc

-- A step that brings a process nearer to its return.
abbrev Nearer : (b : Barrier) (n k : ℕ) → System → Type 0
Nearer b n k s = (t : System) × Step b n s t × (ranks n t < ranks n s) × AllArrived b n k t

pub outside-Arrived : (k a : ℕ) (pc : Pc) → pc ≡ outside → HasArrived k pc a → a ≡ suc k
outside-Arrived k a pc e h = subst (λ pc. HasArrived k pc a) e h

-- A process in the barrier whose gate is shut can move, or the round is the one that it was called for.
in_the_round :
    (w k goal : ℕ) (m : Shared) (q : Proc)
    → Local w goal m q
    → HasArrived k q.pc q.arrivals
    → rank q ≢ 0
    → m.cleared ≡ 0
    → (can_move m.cleared q ≢ 0) ⊎ (m.round ≡ k)
unfolding rank
in_the_round w k goal m q l h inside shut = go q.pc q.arrivals q.passes l h inside
  where
    go :
        (pc : Pc) (a p : ℕ)
        → Local w goal m (record { pc = pc; arrivals = a; passes = p })
        → HasArrived k pc a
        → rank_at pc ≢ 0
        → (can_move_at m.cleared pc ≢ 0) ⊎ (m.round ≡ k)
    go outside a p l h inside = absurd (inside refl)
    go (entering np) a p l h inside = inr (omega (arith, l, h, shut))
    go (arriving np) a p l h inside = inr (omega (arith, l, h, shut))
    go (arrived np my) a p l h inside = inl (omega arith)
    go waiting a p l h inside = inr (omega (arith, l, h, shut))
    go leaving a p l h inside = inl (omega arith)
    go (left my) a p l h inside = inl (omega arith)

inside-weight : (w goal : ℕ) (m : Shared) (q : Proc) → Local w goal m q → rank q ≢ 0 → w ≡ 1
unfolding rank
inside-weight w goal m q l inside = go q.pc q.arrivals q.passes l inside
  where
    go :
        (pc : Pc) (a p : ℕ)
        → Local w goal m (record { pc = pc; arrivals = a; passes = p })
        → rank_at pc ≢ 0
        → w ≡ 1
    go outside a p l inside = absurd (inside refl)
    go (entering np) a p l inside = l.0
    go (arriving np) a p l inside = l.0
    go (arrived np my) a p l inside = l.0
    go waiting a p l inside = l.0
    go leaving a p l inside = l.0
    go (left my) a p l inside = l.0

-- In that round nobody who takes part is outside before the gate opens.
still_called :
    (w k goal : ℕ) (m : Shared) (q : Proc)
    → Local w goal m q
    → HasArrived k q.pc q.arrivals
    → w ≢ 0
    → m.cleared ≡ 0
    → m.round ≡ k
    → q.pc ≢ outside
still_called w k goal m q l h some_weight shut round e = go q.pc q.arrivals q.passes l h e
  where
    go :
        (pc : Pc) (a p : ℕ)
        → Local w goal m (record { pc = pc; arrivals = a; passes = p })
        → HasArrived k pc a
        → pc ≢ outside
    go outside a p l h e = omega (arith, l, h, shut, round, some_weight)
    go (entering np) a p l h e = cc
    go (arriving np) a p l h e = cc
    go (arrived np my) a p l h e = cc
    go waiting a p l h e = cc
    go leaving a p l h e = cc
    go (left my) a p l h e = cc

module _ {b : Barrier} {n : ℕ} (usable : IsUsable b n) (k : ℕ) where
  module _ (s : System) (arrivals : AllArrived b n k s) where
    step-Nearer :
        (i : ℕ) {m : Shared} {q : Proc}
        → i < n
        → Move (count_part b i n) s.mem (s.proc i) m q
        → rank q < rank (s.proc i)
        → Nearer b n k s
    step-Nearer i {m} {q} lt mv less = (
      record { mem = m; proc = update s.proc i q },
      pick i lt mv,
      omega (arith, total-update rank n s.proc i q lt),
      λ j ltj w. elim (ℕ_discrete i j) [
        | yes here ↦
            subst (λ x. HasArrived k (update s.proc i q x).pc (update s.proc i q x).arrivals) here
              (subst (λ (p : Proc). HasArrived k p.pc p.arrivals) (sym (update_self s.proc i q))
                (Move-HasArrived (count_part b i n) s.mem m (s.proc i) q k mv less
                  (arrivals i lt (λ e. w (sym (ap (weight b) here) ∙ e)))))
        | no there ↦
            subst (λ (p : Proc). HasArrived k p.pc p.arrivals) (sym (update_ne s.proc i j q there))
              (arrivals j ltj w)
      ],
    )

    can_move-Nearer : (i : ℕ) → i < n → can_move s.mem.cleared (s.proc i) ≢ 0 → Nearer b n k s
    can_move-Nearer i lt h =
        let (m, q, mv, less) = advance (count_part b i n) s.mem (s.proc i) h in
        step-Nearer i lt mv less

    somebody_moves :
        Reach b n s
        → (s.mem.cleared ≡ 0 → (i : ℕ) → i < n → weight b i ≢ 0 → (s.proc i).pc ≢ outside)
        → Nearer b n k s
    somebody_moves r called =
        let (i, lt, moves) =
          total_find (can_move s.mem.cleared) n s.proc (not_stuck usable r called) in
        can_move-Nearer i lt moves

    -- While a process is in the barrier, one can move.
    reached-Nearer : Reach b n s → ranks n s ≢ 0 → Nearer b n k s
    reached-Nearer r some_inside = elim (ℕ_discrete s.mem.cleared 0) [
      | no opened ↦ somebody_moves r (λ z. absurd (opened z))
      | yes shut ↦
          let inv : Inv b n s.mem s.proc = Reach-Inv b n usable r in
          let (i, lt, inside) = total_find rank n s.proc some_inside in
          let one : weight b i ≡ 1 =
            inside-weight (weight b i) (everyone (weight b) n) s.mem (s.proc i) (inv.local i lt)
              inside in
          elim (in_the_round (weight b i) k (everyone (weight b) n) s.mem (s.proc i)
            (inv.local i lt) (arrivals i lt (omega (arith, one))) inside shut) [
              | inl moves ↦ can_move-Nearer i lt moves
              | inr round ↦ somebody_moves r (λ z j ltj w e.
                  still_called (weight b j) k (everyone (weight b) n) s.mem (s.proc j)
                    (inv.local j ltj) (arrivals j ltj w) w shut round e)
            ]
    ]

  -- Steps to a state where no process is in the barrier.
  pub leave_all :
      (fuel : ℕ) (s₀ s : System)
      → Reach b n s₀
      → Run b n s₀ s
      → ranks n s ≤ fuel
      → AllArrived b n k s
      → (t : System) × Run b n s₀ t × (ranks n t ≡ 0) × AllArrived b n k t
  leave_all zero s₀ s r run le arrivals = (s, run, omega arith, arrivals)
  leave_all (suc fuel) s₀ s r run le arrivals = elim (ℕ_discrete (ranks n s) 0) [
    | yes nobody ↦ (s, run, nobody, arrivals)
    | no somebody ↦
        let (t, st, less, arrivals') = reached-Nearer s arrivals (Reach-Run r run) somebody in
        leave_all fuel s₀ t r (go_on run st) (omega arith) arrivals'
  ]

  pub rank-outside : (q : Proc) → rank q ≡ 0 → q.pc ≡ outside
  unfolding rank
  rank-outside q e = go q.pc e
    where
      go : (pc : Pc) → rank_at pc ≡ 0 → pc ≡ outside
      go outside e = refl
      go (entering np) e = absurd (omega arith)
      go (arriving np) e = absurd (omega arith)
      go (arrived np my) e = absurd (omega arith)
      go waiting e = absurd (omega arith)
      go leaving e = absurd (omega arith)
      go (left my) e = absurd (omega arith)
