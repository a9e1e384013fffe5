-- ===== src/Measurements.antt =====
-- include/measurements.h and prof/measurements.c: the profiler behind PF_START, PF_STOP, PF_EXCLUDE and
-- PF_PRINT, with DO_TIMINGS.
pub mod Reference
pub mod Run
pub mod Report
mod Tests
use ssmp.Base.{
  ℕ, zero, suc, ◌+◌, ◌-◌, ◌/◌, ◌%◌, ◌^◌, Bool, true, false, List, [], ◌∷◌, Option, none, some,
  get_elem?, get_or, set, replicate, if◌then◌else◌, ◌==◌, ltb, ◌&&◌, not,
}
use ssmp.Base.Outcome.{Outcome, done, fault, ◌>>=◌}

abbrev pub u64 : ℕ → ℕ
u64 n = n % 2 ^ 64

abbrev pub entry_times_size : ℕ
entry_times_size = 16

-- the arrays of prof/measurements.c but the messages; `total_samples` by its 64-bit patterns
pub record Profile : Type 0 where
  pub entry_time : List ℕ
  pub entry_time_valid : List Bool
  pub total_sum_ticks : List ℕ
  pub total_samples : List ℕ

-- the arrays as they are defined; `entry_time` has no initialiser, and is zero for its storage class
abbrev pub no_samples : Profile
no_samples = record {
  entry_time = replicate 16 0;
  entry_time_valid = replicate 16 false;
  total_sum_ticks = replicate 16 0;
  total_samples = replicate 16 0;
}

-- `ENTRY_TIME_POS(position)` when `getticks` returns `now`
unfoldable pub entry_time_pos : (position now : ℕ) → Profile → Outcome Profile
entry_time_pos position now p =
    if ltb position entry_times_size
    then done (record p {
      entry_time = set p.entry_time position now;
      entry_time_valid = set p.entry_time_valid position true;
    })
    else fault

-- `total_sum_ticks[position] += (exit_time - entry_time[position] - getticks_correction)`
unfoldable pub add_ticks : (exit_time entry_time correction sum : ℕ) → ℕ
add_ticks exit_time entry_time correction sum =
    u64 (sum + u64 (exit_time + 2 ^ 64 - entry_time + 2 ^ 64 - correction))

-- `EXIT_TIME_POS(position)`; `correction` is `getticks_correction`.
unfoldable pub exit_time_pos : (correction position now : ℕ) → Profile → Outcome Profile
unfolding add_ticks
exit_time_pos correction position now p =
    if ltb position entry_times_size
    then done (
        if get_or p.entry_time_valid position false
        then record p {
          entry_time_valid = set p.entry_time_valid position false;
          total_sum_ticks = set p.total_sum_ticks position (
              add_ticks now (get_or p.entry_time position 0) correction
                (get_or p.total_sum_ticks position 0));
          total_samples =
              set p.total_samples position (u64 (get_or p.total_samples position 0 + 1));
        }
        else p)
    else fault

-- `EXCLUDE_ENTRY(position)`
unfoldable pub exclude_entry : (position : ℕ) → Profile → Outcome Profile
exclude_entry position p =
    if ltb position entry_times_size
    then done (record p { total_samples = set p.total_samples position 0 })
    else fault

-- what a program does to the profiler
pub data Event : Type 0 where
  start : (position now : ℕ) → Event
  stop : (position now : ℕ) → Event
  exclude : (position : ℕ) → Event

unfoldable pub perform : (correction : ℕ) → Event → Profile → Outcome Profile
perform correction (start position now) p = entry_time_pos position now p
perform correction (stop position now) p = exit_time_pos correction position now p
perform correction (exclude position) p = exclude_entry position p

unfoldable pub run : (correction : ℕ) → List Event → Profile → Outcome Profile
run correction [] p = done p
run correction (e ∷ es) p = do p' ← perform correction e p; run correction es p'
