-- ===== src/Barrier/Safety.antt =====
-- What the barrier of `ssmp_barrier_wait_platf` promises its callers.
use ssmp.Base.{ℕ, ◌+◌, ◌≤◌, ◌<◌, ◌≢◌, arith}
use ssmp.Barrier.{Barrier}
use ssmp.Barrier.Count.{weight}
use ssmp.Barrier.System.{System, Reach}
use ssmp.Barrier.Invariant.{IsUsable, Inv, Reach-Inv}

module _ {b : Barrier} {n : ℕ} (usable : IsUsable b n) {s : System} (r : Reach b n s) where
  -- For fewer than 2 ^ 32 processes, whose colors (or bits) are 0 or 1 and not all 0, in every
  -- state that is reached from the initialised barrier, whatever the interleaving: no participant
  -- `i` has passed the barrier for the k-th time before every participant `j` has arrived at it
  -- for the k-th time, and none arrives for the k-th time while a participant has passed it fewer
  -- than k - 1 times.
  pub nobody_overtakes :
      (i j : ℕ)
      → i < n
      → j < n
      → weight b i ≢ 0
      → weight b j ≢ 0
      → ((s.proc i).passes ≤ (s.proc j).arrivals) × ((s.proc i).arrivals ≤ (s.proc j).passes + 1)
  nobody_overtakes i j lti ltj wi wj =
      ground (arith, Reach-Inv b n usable r, inv.bit, inv.local i lti, inv.local j ltj)
    where
      inv : Inv b n s.mem s.proc
      inv = Reach-Inv b n usable r
