-- ===== src/Helpers/Tests.antt =====
-- A wait of 50 cycles on a clock that ticks by 10.
use ssmp.Base.{ℕ, ◌+◌, ◌*◌, ◌≤◌, ◌<◌, ◌^◌, ◌⊎◌, ◌≡◌, refl, arith}
use ssmp.Base.Outcome.{done}
use ssmp.Poll.{await}
use ssmp.Helpers.Powers.{pow2roundup, pow2roundup_lem}
use ssmp.Helpers.{end_ticks, reached, wait_cycles, pause_rep}

abbrev clock : ℕ → ℕ
clock t = 10 * t + 100

wait_run : wait_cycles clock 5 50 9 ≡ done 140
unfolding wait_cycles await reached end_ticks
wait_run = refl

pause_run : pause_rep 5 0 ≡ 5
unfolding pause_rep
pause_run = refl

pow2roundup_run : pow2roundup 37 ≡ 64
unfolding pow2roundup
pow2roundup_run = refl

pow2roundup_lem_example :
    ((2 ^ 31 < 37) × (pow2roundup 37 ≡ 0))
    ⊎ ((k : ℕ) × (pow2roundup 37 ≡ 2 ^ k) × (37 ≤ 2 ^ k) × ((j : ℕ) → 37 ≤ 2 ^ j → k ≤ j))
pow2roundup_lem_example = pow2roundup_lem 37 (omega arith)
