-- ===== src/Barrier/System.antt =====
-- `ssmp_barrier_wait_platf` of src/arch/x86/ssmp_arch.c run by `n` processes, a shared access at a
-- time and in any order. The fences order the accesses of one process, so the memory is
-- sequentially consistent; `_mm_pause_rep` only passes time.
use ssmp.Base.{ℕ, ◌+◌, ◌-◌, ◌^◌, ◌<◌, ◌≡◌, ◌≢◌, Option, none, some}
use ssmp.Base.Family.{update}
use ssmp.Barrier.{Barrier, u32, count_part}

-- Where a process stands, with the local variables that are live there.
pub data Pc : Type 0 where
  outside : Pc  -- before the call and after the return
  entering : (num_part : ℕ) → Pc  -- `while (b->cleared == 1)`
  arriving : (num_part : ℕ) → Pc  -- before the add-and-fetch
  arrived : (num_part my_ticket : ℕ) → Pc  -- `if (my_ticket == num_part)`
  waiting : Pc  -- `while (b->cleared == 0)`
  leaving : Pc  -- before the sub-and-fetch
  left : (my_ticket : ℕ) → Pc  -- `if (my_ticket == 0)`

-- A process, with two history variables: how often it has arrived at this barrier, and how often it
-- has passed it. The program does not have them.
pub record Proc : Type 0 where
  pub pc : Pc
  pub arrivals : ℕ
  pub passes : ℕ

-- The words of the barrier that change, and a history variable: the completed rounds.
pub record Shared : Type 0 where
  pub ticket : ℕ
  pub cleared : ℕ
  pub round : ℕ

-- One step of a process that counts `cnt` participants.
pub data Move (cnt : Option ℕ) (m : Shared) : Proc → Shared → Proc → Type 0 where
  skip :
      {a p : ℕ}
      → cnt ≡ none
      → Move cnt m
          (record { pc = outside; arrivals = a; passes = p })
          m
          (record { pc = outside; arrivals = a; passes = p })
  call :
      {a p num_part : ℕ}
      → cnt ≡ some num_part
      → Move cnt m
          (record { pc = outside; arrivals = a; passes = p })
          m
          (record { pc = entering num_part; arrivals = a; passes = p })
  hold :
      {a p num_part : ℕ}
      → m.cleared ≡ 1
      → Move cnt m
          (record { pc = entering num_part; arrivals = a; passes = p })
          m
          (record { pc = entering num_part; arrivals = a; passes = p })
  enter :
      {a p num_part : ℕ}
      → m.cleared ≢ 1
      → Move cnt m
          (record { pc = entering num_part; arrivals = a; passes = p })
          m
          (record { pc = arriving num_part; arrivals = a; passes = p })
  arrive :
      {a p num_part : ℕ}
      → Move cnt m
          (record { pc = arriving num_part; arrivals = a; passes = p })
          (record m { ticket = u32 (m.ticket + 1) })
          (record { pc = arrived num_part (u32 (m.ticket + 1)); arrivals = a + 1; passes = p })
  open_gate :
      {a p num_part my_ticket : ℕ}
      → my_ticket ≡ num_part
      → Move cnt m
          (record { pc = arrived num_part my_ticket; arrivals = a; passes = p })
          (record m { cleared = 1 })
          (record { pc = waiting; arrivals = a; passes = p })
  early :
      {a p num_part my_ticket : ℕ}
      → my_ticket ≢ num_part
      → Move cnt m
          (record { pc = arrived num_part my_ticket; arrivals = a; passes = p })
          m
          (record { pc = waiting; arrivals = a; passes = p })
  wait :
      {a p : ℕ}
      → m.cleared ≡ 0
      → Move cnt m
          (record { pc = waiting; arrivals = a; passes = p })
          m
          (record { pc = waiting; arrivals = a; passes = p })
  pass :
      {a p : ℕ}
      → m.cleared ≢ 0
      → Move cnt m
          (record { pc = waiting; arrivals = a; passes = p })
          m
          (record { pc = leaving; arrivals = a; passes = p + 1 })
  leave :
      {a p : ℕ}
      → Move cnt m
          (record { pc = leaving; arrivals = a; passes = p })
          (record m { ticket = u32 (m.ticket + 2 ^ 32 - 1) })
          (record { pc = left (u32 (m.ticket + 2 ^ 32 - 1)); arrivals = a; passes = p })
  close_gate :
      {a p my_ticket : ℕ}
      → my_ticket ≡ 0
      → Move cnt m
          (record { pc = left my_ticket; arrivals = a; passes = p })
          (record m { cleared = 0; round = m.round + 1 })
          (record { pc = outside; arrivals = a; passes = p })
  late :
      {a p my_ticket : ℕ}
      → my_ticket ≢ 0
      → Move cnt m
          (record { pc = left my_ticket; arrivals = a; passes = p })
          m
          (record { pc = outside; arrivals = a; passes = p })

pub record System : Type 0 where
  pub mem : Shared
  pub proc : ℕ → Proc

pub data Step (b : Barrier) (n : ℕ) (s : System) : System → Type 0 where
  pick :
      (i : ℕ) {m : Shared} {p : Proc}
      → i < n
      → Move (count_part b i n) s.mem (s.proc i) m p
      → Step b n s (record { mem = m; proc = update s.proc i p })

-- the barrier as `ssmp_barrier_init_platf` leaves it, and no process in it
abbrev pub start_state : System
start_state = record {
  mem = record { ticket = 0; cleared = 0; round = 0 };
  proc = λ _. record { pc = outside; arrivals = 0; passes = 0 };
}

pub data Reach (b : Barrier) (n : ℕ) : System → Type 0 where
  start : Reach b n start_state
  next : {s t : System} → Reach b n s → Step b n s t → Reach b n t
