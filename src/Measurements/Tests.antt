-- ===== src/Measurements/Tests.antt =====
-- A short run of the profiler: position 1 is measured twice, and position 0 once and then excluded.
use ssmp.Base.{◌-◌, ◌≡◌, refl, arith, Bool, true, List, [], ◌∷◌, set, none}
use ssmp.Base.Outcome.{done}
use ssmp.Measurements.{
  Profile, Event, start, stop, exclude, run, perform, entry_time_pos, exit_time_pos, exclude_entry,
  no_samples, add_ticks,
}
use ssmp.Measurements.Reference.{Shows, InRange, see, see_all}
use ssmp.Measurements.Run.{run-Shows}
use ssmp.Measurements.Report.{
  prints_ticks_stats, totals_loop, lines_loop, add_position, read, all_ticks, lines_of, AllShares,
  prints_ticks_stats_lem,
}

-- with a correction of 3 ticks; the second start of position 1 replaces the first, and its last stop has
-- no start.
abbrev events : List Event
events =
    start 0 100
    ∷ start 1 110
    ∷ start 1 120
    ∷ stop 1 150
    ∷ stop 0 160
    ∷ exclude 0
    ∷ start 1 200
    ∷ stop 1 213
    ∷ stop 1 300
    ∷ []

abbrev profile : Profile
profile = record no_samples {
  entry_time = set (set no_samples.entry_time 0 100) 1 200;
  total_sum_ticks = set (set no_samples.total_sum_ticks 0 57) 1 37;
  total_samples = set no_samples.total_samples 1 2;
}

profile-run : run 3 events no_samples ≡ done profile
unfolding run perform entry_time_pos exit_time_pos exclude_entry add_ticks
profile-run = refl

events-InRange : InRange events
unfolding InRange
events-InRange = omega arith

run-Shows_example :
    (p : Profile) × (run 3 events no_samples ≡ done p)
    × Shows 1 (record { running = none; ticks = 37; samples = 2 }) p
unfolding see_all see
run-Shows_example = run-Shows 3 1 (omega arith) events events-InRange

-- Only position 1 is reported.
report_run :
    prints_ticks_stats 0 16 profile
    ≡ done (true, record { position = 1; samples = 2; ticks = 37; tticks = 37 } ∷ [])
unfolding prints_ticks_stats totals_loop lines_loop add_position read
report_run = refl

whole : all_ticks (16 - 0) 0 profile ≡ 37
unfolding all_ticks
whole = refl

prints_ticks_stats_lem_example :
    (heading : Bool) × (prints_ticks_stats 0 16 profile
      ≡ done (heading, lines_of 16 0 (all_ticks 16 0 profile) profile))
    × AllShares (lines_of 16 0 (all_ticks 16 0 profile) profile)
prints_ticks_stats_lem_example =
    prints_ticks_stats_lem profile refl refl 0 16 (omega arith) (omega arith) (omega (arith, whole))
