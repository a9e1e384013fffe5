-- ===== src/Helpers.antt =====
-- The helper functions of src/ssmp.c that wait, and two of src/arch/x86/ssmp_arch.c.
pub mod Powers
pub mod Random
mod Tests
use native.Mathlib.Nat.{mod-eq_of_lt}
use ssmp.Base.{
  ℕ, zero, suc, ◌+◌, ◌-◌, ◌*◌, ◌%◌, ◌^◌, ◌≤◌, ◌<◌, ◌≡◌, refl, arith, Bool, Option, none, some,
  if◌then◌else◌, ltb, ap, ◌∙◌,
}
use ssmp.Base.Outcome.{Outcome, done, exited}
use ssmp.Poll.{Env, memory, await}
use ssmp.Poll.Await.{await_sound, await_total}

-- `_end_ticks` of `wait_cycles`; ticks are 64-bit numbers.
unfoldable pub end_ticks : (start correction cycles : ℕ) → ℕ
end_ticks start correction cycles =
    if ltb (2 * correction % 2 ^ 64) cycles
    then (start + cycles + 2 ^ 64 - 2 * correction % 2 ^ 64) % 2 ^ 64
    else 0

-- `!(getticks() < _end_ticks)`
unfoldable pub reached : ℕ → ℕ → Option ℕ
reached end now = if ltb now end then none else some now

-- `wait_cycles`, where `clock t` is what the `t`-th call of `getticks` returns. The result is its last
-- reading of the clock.
unfoldable pub wait_cycles : (ℕ → ℕ) → (correction cycles fuel : ℕ) → Outcome ℕ
unfolding reached end_ticks
wait_cycles clock correction cycles fuel =
    await (λ t _. clock (suc t)) (reached (end_ticks (clock 0) correction cycles)) fuel 0 (clock 0)

-- How often `_mm_pause_rep` calls `_mm_pause`: the pauses so far, and the rounds left.
unfoldable pub pause_rep : ℕ → ℕ → ℕ
pause_rep zero pauses = pauses
pause_rep (suc num_reps) pauses = pause_rep num_reps (pauses + 1)

-- `getticks_platf` on x86-64: the counter out of its two halves
unfoldable pub getticks : (hi lo : ℕ) → ℕ
getticks hi lo = lo % 2 ^ 32 + hi % 2 ^ 32 * 2 ^ 32

-- `set_cpu_platf` on x86: `ok` is whether `sched_setaffinity` succeeds, the result `ssmp_my_core`.
unfoldable pub set_cpu : (ok : Bool) → ℕ → Outcome ℕ
set_cpu ok cpu = if ok then done cpu else exited 3

module _ (clock : ℕ → ℕ) (correction cycles fuel : ℕ) where
  abbrev pub env : Env ℕ
  env t _ = clock (suc t)

  reached-some : (end now : ℕ) {r : ℕ} → reached end now ≡ some r → (r ≡ now) × (end ≤ now)
  unfolding reached
  reached-some end now h = ground arith

  end_ticks_lem :
      clock 0 + cycles < 2 ^ 64
      → 2 * correction < cycles
      → end_ticks (clock 0) correction cycles + 2 * correction ≡ clock 0 + cycles
  unfolding end_ticks
  end_ticks_lem small more =
      let c : 2 * correction % 2 ^ 64 ≡ 2 * correction = mod-eq_of_lt (omega arith) in
      let sum : (clock 0 + cycles + 2 ^ 64 - 2 * correction) % 2 ^ 64
          ≡ clock 0 + cycles - 2 * correction =
        omega arith in
      ground (arith, c, sum)

  -- If `wait_cycles` returns, the cycles are more than two corrections and the end is a 64-bit
  -- number, then a later reading of the clock is at least the cycles, less two corrections,
  -- behind the first.
  pub wait_cycles_sound :
      {now : ℕ}
      → wait_cycles clock correction cycles fuel ≡ done now
      → clock 0 + cycles < 2 ^ 64
      → 2 * correction < cycles
      → (u : ℕ) × (now ≡ clock (suc u)) × (clock 0 + cycles ≤ now + 2 * correction)
  unfolding wait_cycles memory
  wait_cycles_sound {now} h small more =
      let end : ℕ = end_ticks (clock 0) correction cycles in
      let (u, e) = await_sound env (clock 0) (reached end) fuel 0 h in
      let (same, late) = reached-some end (clock (suc u)) e in
      (u, same, omega (arith, same, late, end_ticks_lem small more))

  -- It returns at the first such reading, or before.
  pub wait_cycles_total :
      (k : ℕ)
      → k < fuel
      → clock 0 + cycles < 2 ^ 64
      → 2 * correction < cycles
      → clock 0 + cycles ≤ clock (suc k) + 2 * correction
      → (now : ℕ) × (wait_cycles clock correction cycles fuel ≡ done now)
  unfolding wait_cycles memory reached
  wait_cycles_total k lt small more late =
      let same : 0 + k ≡ k = omega arith in
      await_total env (clock 0) (reached (end_ticks (clock 0) correction cycles)) k fuel 0
        (clock (suc k)) lt (rw same (ground (arith, late, end_ticks_lem small more)))
