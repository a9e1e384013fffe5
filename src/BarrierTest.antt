-- ===== src/BarrierTest.antt =====
-- The main loop of benchmarks/barrier_test.c: process 0 draws the number of a barrier and broadcasts it,
-- the others receive it, and all wait at that barrier.

pub mod Crossing
mod Tests
use ssmp.Base.{
  some, none, ◌<◌, ◌≡◌, ◌≢◌, ◌+◌, if◌then◌else◌, ◌==◌, replicate, drop, ℕ, zero, suc, ◌+◌, ◌-◌, ◌%◌,
  ◌^◌, Bool, true, false, List, [], ◌∷◌, none, some, get_elem?, map, if◌then◌else◌, ◌==◌,
}
use ssmp.Base.Family.{update}
use ssmp.Base.Int.{pos}
use ssmp.Base.Outcome.{Outcome, done, fault, ◌>>=◌}
use ssmp.Base.Int.{pos}
use ssmp.Barrier.{Barrier, ssmp_num_barriers, get_barrier, fresh_barrier, color_app}
use ssmp.Barrier.Count.{weight}
use ssmp.Barrier.System.{System}
use ssmp.Barrier.Leave.{Run, IsLeft}
use ssmp.Broadcast.{sends, broadcast}
use ssmp.Message.{Msg, Slots}
use ssmp.Generic
use ssmp.Helpers.Random.{Seeds, xorshf96}

-- the barriers as `ssmp_init` leaves them
abbrev pub barrier_at : ℕ → Barrier
barrier_at barr = fresh_barrier (if barr == 1 then some color_app else none)

-- `barr = my_random(...) % SSMP_NUM_BARRIERS`
unfoldable pub draw : Seeds → ℕ
draw seeds = (xorshf96 seeds).z % ssmp_num_barriers

-- `m.w0 = barr`, in a message whose other bytes are `m`
unfoldable pub with_w0 : ℕ → Msg → Msg
with_w0 w m = record m { words = w % 2 ^ 32 ∷ drop 1 m.words }

-- `barr = msg.w0`; a message without words has not come from `ssmp_send`.
unfoldable pub w0_of : Msg → Outcome ℕ
w0_of m = elim m.words [ [] ↦ fault | w ∷ ws ↦ done w ]

module _ (atomic : Bool) (fuel : ℕ) where
  -- The branch of process 0, up to the barrier: the number of the barrier, and the buffers to the others.
  unfoldable pub root_branch : (num_procs : ℕ) → Seeds → Msg → Slots → Outcome (ℕ × Slots)
  unfolding draw with_w0
  root_branch num_procs seeds m s = do
    (m', t) ← broadcast (sends atomic fuel 0) 0 num_procs (with_w0 (draw seeds) m) s
    done (draw seeds, t)

  -- The other branch, up to the barrier; `s` holds the buffers of the process.
  unfoldable pub other_branch : Slots → Outcome (ℕ × Slots)
  unfolding w0_of
  other_branch s = do
    (m, s') ← Generic.recv_from atomic (λ _ t. t) (suc fuel) 0 s
    barr ← w0_of m
    done (barr, s')

  -- The processes 1 to `k` take their turns: the barriers that they come to, and the buffers from process 0
  -- by the id of the other process.
  unfoldable pub others_turns : ℕ → Slots → Outcome (List ℕ × Slots)
  unfolding other_branch
  others_turns zero t = done ([], t)
  others_turns (suc k) t = do
    (barrs, t') ← others_turns k t
    (barr, s) ← other_branch (λ _. t' (suc k))
    done (barr ∷ barrs, update t' (suc k) (s 0))

  -- One round of the loop in all processes, up to their calls of `ssmp_barrier_wait`: the number of the
  -- barrier in process 0 and those in the others.
  unfoldable pub until_wait : (num_procs : ℕ) → Seeds → Msg → Slots → Outcome (ℕ × List ℕ × Slots)
  unfolding root_branch others_turns
  until_wait num_procs seeds m s = do
    (barr, t) ← root_branch num_procs seeds m s
    (barrs, t') ← others_turns (num_procs - 1) t
    done (barr, barrs, t')

  -- All processes wait at barrier `barr`, from one state of it to another: steps of the barrier that lead
  -- from all outside to all outside, and by which every process that takes part passes it once.
  pub record Waits (num_procs barr : ℕ) (before after : System) : Type 0 where
    pub exists : get_barrier (pos barr) ≡ some (pos barr)
    pub steps : Run (barrier_at barr) num_procs before after
    pub come : IsLeft num_procs before
    pub leave : IsLeft num_procs after
    pub passed :
        (i : ℕ)
        → i < num_procs
        → weight (barrier_at barr) i ≢ 0
        → (after.proc i).passes ≡ (before.proc i).passes + 1

  -- `while (num++ < num_reps)` in all processes, from the buffers `s` and the barriers `w` on to those at
  -- its end. `junk` is what the message of each round holds before it is filled in. A round ends only if
  -- all processes wait at one barrier and get through it.
  pub data Rounds (num_procs : ℕ) (junk : ℕ → Msg)
      : ℕ → Seeds → Slots → (ℕ → System) → Slots → (ℕ → System) → Type 0 where
    no_more : {seeds : Seeds} {s : Slots} {w : ℕ → System} → Rounds num_procs junk 0 seeds s w s w
    one_more :
        {reps barr : ℕ} {seeds : Seeds} {s t t' : Slots} {w w' : ℕ → System} {c : System}
        → until_wait num_procs seeds (junk reps) s ≡ done (barr, replicate (num_procs - 1) barr, t)
        → Waits num_procs barr (w barr) c
        → Rounds num_procs junk reps (xorshf96 seeds) t (update w barr c) t' w'
        → Rounds num_procs junk (suc reps) seeds s w t' w'
