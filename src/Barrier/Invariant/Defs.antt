-- ===== src/Barrier/Invariant/Defs.antt =====
-- The invariant of the barrier protocol.
use ssmp.Base.{ℕ, ◌+◌, ◌^◌, ◌≤◌, ◌<◌, ◌≡◌, ◌⊎◌, ◌&&◌, if◌then◌else◌, ◌==◌}
use ssmp.Base.Family.{total}
use ssmp.Barrier.{Barrier}
use ssmp.Barrier.Count.{weight, everyone}
use ssmp.Barrier.System.{
  Pc, outside, entering, arriving, arrived, waiting, leaving, left, Proc, Shared,
}

-- between the add-and-fetch and the sub-and-fetch
abbrev pub inside_at : Pc → ℕ
inside_at (arrived _ _) = 1
inside_at waiting = 1
inside_at leaving = 1
inside_at _ = 0

abbrev pub inside : Proc → ℕ
inside q = inside_at q.pc

-- about to open the gate
abbrev opener_at : ℕ → Pc → ℕ
opener_at k (arrived _ my) = if my == k then 1 else 0
opener_at k _ = 0

abbrev pub opener : ℕ → Proc → ℕ
opener k q = opener_at k q.pc

-- about to close the gate
abbrev closer_at : Pc → ℕ
closer_at (left my) = if my == 0 then 1 else 0
closer_at _ = 0

abbrev pub closer : Proc → ℕ
closer q = closer_at q.pc

-- What a process that counts for `w` of `k` may rely on at each place.
abbrev pub LocalAt : (w k : ℕ) → Shared → Pc → (arrivals passes : ℕ) → Type 0
LocalAt w k m outside a p = (a ≡ p) × ((w ≡ 0) ⊎ (p ≡ m.round + m.cleared))
LocalAt w k m (entering np) a p =
    (w ≡ 1) × (np ≡ k) × (a ≡ m.round + m.cleared) × (p ≡ m.round + m.cleared)
LocalAt w k m (arriving np) a p =
    (w ≡ 1) × (np ≡ k) × (m.cleared ≡ 0) × (a ≡ m.round) × (p ≡ m.round)
LocalAt w k m (arrived np my) a p = (w ≡ 1) × (np ≡ k) × (a ≡ m.round + 1) × (p ≡ m.round)
LocalAt w k m waiting a p = (w ≡ 1) × (a ≡ m.round + 1) × (p ≡ m.round)
LocalAt w k m leaving a p = (w ≡ 1) × (m.cleared ≡ 1) × (a ≡ m.round + 1) × (p ≡ m.round + 1)
LocalAt w k m (left my) a p = (w ≡ 1) × (a ≡ m.round + m.cleared) × (p ≡ m.round + m.cleared)

abbrev pub Local : (w k : ℕ) → Shared → Proc → Type 0
Local w k m q = LocalAt w k m q.pc q.arrivals q.passes

-- A barrier that `n` processes can use: the colors are 0 or 1, and somebody takes part.
pub record IsUsable (b : Barrier) (n : ℕ) : Type 0 where
  pub few : n < 2 ^ 32
  pub binary : (i : ℕ) → weight b i ≤ 1
  pub someone : 1 ≤ everyone (weight b) n

pub record Inv (b : Barrier) (n : ℕ) (m : Shared) (proc : ℕ → Proc) : Type 0 where
  pub bit : m.cleared ≤ 1
  pub tickets : m.ticket ≡ total inside n proc
  pub openers :
      total (opener (everyone (weight b) n)) n proc
      ≡ (if (m.cleared == 0) && (m.ticket == everyone (weight b) n) then 1 else 0)
  pub closers : total closer n proc ≡ (if (m.cleared == 1) && (m.ticket == 0) then 1 else 0)
  pub local : (i : ℕ) → i < n → Local (weight b i) (everyone (weight b) n) m (proc i)
