-- ===== src/Barrier/Invariant/Moves.antt =====
-- A move of process `i` keeps the invariant of the barrier.
use ssmp.Base.{
  ℕ, ◌+◌, ◌^◌, ◌≤◌, ◌<◌, ◌≡◌, ◌&&◌, Option, arith, if◌then◌else◌, ◌==◌, refl, ap, ℕ_discrete, subst,
}
use ssmp.Base.Family.{
  update, update_self, update_ne, total, total-le, total-update, le-total, total_mono, total_tight,
}
use ssmp.Barrier.{Barrier, count_part}
use ssmp.Barrier.Count.{weight, everyone, count_part_in, count_part_out}
use ssmp.Barrier.System.{
  Proc, Shared, Move, skip, call, hold, enter, arrive, open_gate, early, wait, pass, leave,
  close_gate, late,
}
use ssmp.Barrier.Invariant.Defs.{inside, opener, closer, Local, IsUsable, Inv}

Local-inside : (w k : ℕ) (m : Shared) (q : Proc) → Local w k m q → inside q ≤ w
Local-inside w k m q l = ground arith

module _ {b : Barrier} {n : ℕ} (usable : IsUsable b n) {m : Shared} {proc : ℕ → Proc}
    (inv : Inv b n m proc) (i : ℕ) (lt : i < n) where
  abbrev goal : ℕ
  goal = everyone (weight b) n

  -- Process `i` goes from `q` to `q'`.
  record Mover (q q' : Proc) : Type 0 where
    here : proc i ≡ q
    own : Local (weight b i) goal m q
    insides : total inside n (update proc i q') + inside q ≡ total inside n proc + inside q'
    opens :
        total (opener goal) n (update proc i q') + opener goal q
        ≡ total (opener goal) n proc + opener goal q'
    closes : total closer n (update proc i q') + closer q ≡ total closer n proc + closer q'
    among_inside : inside q ≤ total inside n proc
    among_opens : opener goal q ≤ total (opener goal) n proc
    among_closes : closer q ≤ total closer n proc
    tickets : m.ticket ≡ total inside n proc
    openers : total (opener goal) n proc ≡ (if (m.cleared == 0) && (m.ticket == goal) then 1 else 0)
    closers : total closer n proc ≡ (if (m.cleared == 1) && (m.ticket == 0) then 1 else 0)
    room : inside q' ≤ weight b i → total inside n (update proc i q') ≤ goal
    small : goal < 2 ^ 32
    full : total inside n proc ≤ goal
    positive : 1 ≤ goal
    bin : weight b i ≤ 1

  inside-le : total inside n proc ≤ goal
  inside-le =
      total_mono inside (λ (x : ℕ). x) n proc (weight b)
        (λ j p. Local-inside _ _ m (proc j) (inv.local j p))

  update-inside :
      (q' : Proc)
      → inside q' ≤ weight b i
      → (j : ℕ) → j < n
      → inside (update proc i q' j) ≤ weight b j
  update-inside q' h j p =
      ground (arith, h, ap (weight b) {x = i} {y = j}, Local-inside _ _ m (proc j) (inv.local j p))

  mover : (q' : Proc) → Mover (proc i) q'
  mover q' = record {
    here = refl;
    own = inv.local i lt;
    insides = omega (arith, total-update inside n proc i q' lt);
    opens = omega (arith, total-update (opener goal) n proc i q' lt);
    closes = omega (arith, total-update closer n proc i q' lt);
    among_inside = le-total inside n proc i lt;
    among_opens = le-total (opener goal) n proc i lt;
    among_closes = le-total closer n proc i lt;
    tickets = inv.tickets;
    openers = inv.openers;
    closers = inv.closers;
    room =
        λ h. total_mono inside (λ (x : ℕ). x) n (update proc i q') (weight b) (update-inside q' h);
    small = omega (arith, usable.few, total-le (λ (x : ℕ). x) n 1 (weight b) usable.binary);
    full = inside-le;
    positive = usable.someone;
    bin = usable.binary i;
  }

  record Counts (m' : Shared) (q' : Proc) : Type 0 where
    bit : m'.cleared ≤ 1
    tickets : m'.ticket ≡ total inside n (update proc i q')
    openers :
        total (opener goal) n (update proc i q')
        ≡ (if (m'.cleared == 0) && (m'.ticket == goal) then 1 else 0)
    closers :
        total closer n (update proc i q') ≡ (if (m'.cleared == 1) && (m'.ticket == 0) then 1 else 0)

  Move-Counts :
      {cnt : Option ℕ} {q q' : Proc} {m' : Shared} → Move cnt m q m' q' → Mover q q' → Counts m' q'
  Move-Counts (skip e) f = ground arith
  Move-Counts (call e) f = ground arith
  Move-Counts (hold e) f = ground arith
  Move-Counts (enter e) f = ground arith
  Move-Counts arrive f = ground arith
  Move-Counts (open_gate e) f = ground arith
  Move-Counts (early e) f = ground arith
  Move-Counts (wait e) f = ground arith
  Move-Counts (pass e) f = ground arith
  Move-Counts leave f = ground arith
  Move-Counts (close_gate e) f = ground arith
  Move-Counts (late e) f = ground arith

  -- everybody takes part in the opening of the gate, and nobody is inside at its closing
  all_inside : total inside n proc ≡ goal → (j : ℕ) → j < n → inside (proc j) ≡ weight b j
  all_inside =
      total_tight inside (λ (x : ℕ). x) n proc (weight b)
        (λ j p. Local-inside _ _ m (proc j) (inv.local j p))

  Move-Local-self :
      {q q' : Proc} {m' : Shared}
      → Move (count_part b i n) m q m' q'
      → Mover q q'
      → Local (weight b i) goal m' q'
  Move-Local-self (skip e) f = ground arith
  Move-Local-self (call e) f = ground (arith, count_part_in b n i, count_part_out b n i)
  Move-Local-self (hold e) f = ground arith
  Move-Local-self (enter e) f = ground arith
  Move-Local-self arrive f = ground arith
  Move-Local-self (open_gate e) f = ground arith
  Move-Local-self (early e) f = ground arith
  Move-Local-self (wait e) f = ground arith
  Move-Local-self (pass e) f = ground arith
  Move-Local-self leave f = ground arith
  Move-Local-self (close_gate e) f = ground arith
  Move-Local-self (late e) f = ground arith

  Move-Local-other :
      {q q' : Proc} {m' : Shared}
      → Move (count_part b i n) m q m' q'
      → Mover q q'
      → (j : ℕ) → j < n
      → Local (weight b j) goal m' (proc j)
  Move-Local-other (skip e) f j p = inv.local j p
  Move-Local-other (call e) f j p = inv.local j p
  Move-Local-other (hold e) f j p = inv.local j p
  Move-Local-other (enter e) f j p = inv.local j p
  Move-Local-other arrive f j p = ground (arith, inv.local j p)
  Move-Local-other (open_gate e) f j p =
      ground (arith, inv.local j p, all_inside (ground arith) j p)
  Move-Local-other (early e) f j p = inv.local j p
  Move-Local-other (wait e) f j p = inv.local j p
  Move-Local-other (pass e) f j p = inv.local j p
  Move-Local-other leave f j p = ground (arith, inv.local j p)
  Move-Local-other (close_gate e) f j p = ground (arith, inv.local j p, le-total inside n proc j p)
  Move-Local-other (late e) f j p = inv.local j p

  pub Move-Inv :
      {q' : Proc} {m' : Shared}
      → Move (count_part b i n) m (proc i) m' q'
      → Inv b n m' (update proc i q')
  Move-Inv {q'} {m'} mv = record {
    bit = counts.bit;
    tickets = counts.tickets;
    openers = counts.openers;
    closers = counts.closers;
    local = λ j p. elim (ℕ_discrete i j) [
      | yes e ↦
          subst (λ k. Local (weight b k) goal m' (update proc i q' k)) e
            (rw (update_self proc i q') (Move-Local-self mv f))
      | no ne ↦ rw (update_ne proc i j q' ne) (Move-Local-other mv f j p)
    ];
  }
    where
      f : Mover (proc i) q'
      f = mover q'

      counts : Counts m' q'
      counts = Move-Counts mv f
