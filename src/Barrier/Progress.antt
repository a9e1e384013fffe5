-- ===== src/Barrier/Progress.antt =====
-- The barrier of `ssmp_barrier_wait_platf` does not deadlock.
use ssmp.Base.{ℕ, ◌≤◌, ◌<◌, ◌≡◌, ◌≢◌, Option, arith, if◌then◌else◌, ◌==◌, refl, ℕ_discrete}
use ssmp.Base.Family.{total, total-zero, total_mono, update, update_self, total_find, le-total}
use ssmp.Barrier.{Barrier, count_part}
use ssmp.Barrier.Count.{weight, everyone}
use ssmp.Barrier.System.{
  Pc, outside, entering, arriving, arrived, waiting, leaving, left, Proc, Shared, System, Reach,
  Step, pick, Move, enter, arrive, open_gate, early, pass, leave, close_gate, late,
}
use ssmp.Barrier.Invariant.{IsUsable, Inv, Reach-Inv, inside, opener, closer, Local}

-- How many accesses a process still makes before it returns, spinning aside.
abbrev pub rank_at : Pc → ℕ
rank_at outside = 0
rank_at (entering _) = 6
rank_at (arriving _) = 5
rank_at (arrived _ _) = 4
rank_at waiting = 3
rank_at leaving = 2
rank_at (left _) = 1

unfoldable pub rank : Proc → ℕ
rank q = rank_at q.pc

-- whether the next access of a process ends a loop or stands in none
abbrev pub can_move_at : ℕ → Pc → ℕ
can_move_at cl outside = 0
can_move_at cl (entering _) = if cl == 1 then 0 else 1
can_move_at cl waiting = if cl == 0 then 0 else 1
can_move_at cl _ = 1

abbrev pub can_move : ℕ → Proc → ℕ
can_move cl q = can_move_at cl q.pc

pub advance :
    (cnt : Option ℕ) (m : Shared) (q : Proc)
    → can_move m.cleared q ≢ 0
    → (m' : Shared) × (q' : Proc) × Move cnt m q m' q' × (rank q' < rank q)
unfolding rank
advance cnt m q h = go q.pc h
  where
    go :
        (pc : Pc)
        → can_move_at m.cleared pc ≢ 0
        → (m' : Shared) × (q' : Proc) × Move cnt m (record q { pc = pc }) m' q'
          × (rank q' < rank_at pc)
    go outside h = absurd (h refl)
    go (entering np) h = (_, _, enter (ground arith), omega arith)
    go (arriving np) h = (_, _, arrive, omega arith)
    go (arrived np my) h = elim (ℕ_discrete my np) [
      | yes e ↦ (_, _, open_gate e, omega arith)
      | no ne ↦ (_, _, early ne, omega arith)
    ]
    go waiting h = (_, _, pass (ground arith), omega arith)
    go leaving h = (_, _, leave, omega arith)
    go (left my) h = elim (ℕ_discrete my 0) [
      | yes e ↦ (_, _, close_gate e, omega arith)
      | no ne ↦ (_, _, late ne, omega arith)
    ]

-- What is known of a process that cannot move
stuck-inside :
    (k w : ℕ) (m : Shared) (q : Proc)
    → Local w k m q
    → can_move m.cleared q ≡ 0
    → m.cleared ≤ 1
    → (w ≢ 0 → m.cleared ≡ 0 → q.pc ≢ outside)
    → (inside q ≡ (if m.cleared == 0 then w else 0)) × (opener k q ≡ 0) × (closer q ≡ 0)
stuck-inside k w m q l c h called = ground arith

module _ {b : Barrier} {n : ℕ} (usable : IsUsable b n) {s : System} (r : Reach b n s)
    (called : s.mem.cleared ≡ 0 → (i : ℕ) → i < n → weight b i ≢ 0 → (s.proc i).pc ≢ outside) where
  abbrev goal : ℕ
  goal = everyone (weight b) n

  inv : Inv b n s.mem s.proc
  inv = Reach-Inv b n usable r

  abbrev moving : ℕ
  moving = total (can_move s.mem.cleared) n s.proc

  module _ (stuck : moving ≡ 0) (i : ℕ) (lt : i < n) where
    stuck_at :
        (inside (s.proc i) ≡ (if s.mem.cleared == 0 then weight b i else 0))
        × (opener goal (s.proc i) ≡ 0)
        × (closer (s.proc i) ≡ 0)
    stuck_at =
        stuck-inside goal (weight b i) s.mem (s.proc i) (inv.local i lt)
          (omega (arith, le-total (can_move s.mem.cleared) n s.proc i lt)) inv.bit
          (λ w z. called z i lt w)

  pub not_stuck : moving ≢ 0
  not_stuck stuck = elim (ℕ_discrete s.mem.cleared 0) [
    | yes shut ↦ ground (
      arith,
      inv.tickets,
      inv.openers,
      no_opener,
      total_mono (λ (x : ℕ). x) inside n (weight b) s.proc
          (λ i lt. ground (arith, stuck_at stuck i lt)),
      total_mono inside (λ (x : ℕ). x) n s.proc (weight b)
          (λ i lt. ground (arith, stuck_at stuck i lt)),
    )
    | no opened ↦ ground (
      arith,
      inv.bit,
      inv.tickets,
      inv.closers,
      no_closer,
      total-zero inside n s.proc (λ i lt. ground (arith, stuck_at stuck i lt)),
    )
  ]
    where
      no_opener : total (opener goal) n s.proc ≡ 0
      no_opener = total-zero (opener goal) n s.proc (λ i lt. (stuck_at stuck i lt).1)

      no_closer : total closer n s.proc ≡ 0
      no_closer = total-zero closer n s.proc (λ i lt. (stuck_at stuck i lt).2)

  -- No deadlock. For fewer than 2 ^ 32 processes, whose colors (or bits) are 0 or 1 and not all
  -- 0, in every state that is reached: if the gate is open or every participant has called, some
  -- process can make a step that brings it nearer to its return.
  pub no_deadlock :
      (i : ℕ) × (i < n) × (t : System) × Step b n s t × (rank (t.proc i) < rank (s.proc i))
  no_deadlock =
      let (i, lt, moves) = total_find (can_move s.mem.cleared) n s.proc not_stuck in
      let (m', q', mv, less) = advance (count_part b i n) s.mem (s.proc i) moves in
      (
        i,
        lt,
        record { mem = m'; proc = update s.proc i q' },
        pick i lt mv,
        rw (update_self s.proc i q') less,
      )
