-- ===== src/Layout/Areas.antt =====
-- The regions of the shared memory follow one another, aligned and large enough.
use native.Mathlib.Nat.{mod-eq_of_lt}
use ssmp.Base.{
  ℕ, zero, suc, ◌+◌, ◌*◌, ◌/◌, ◌%◌, ◌^◌, ◌≤◌, ◌<◌, ◌≡◌, refl, arith, if◌then◌else◌, ◌==◌,
  ℕ_discrete, ◌∙◌,
}
use ssmp.Layout.{
  inc_align_loop, inc_align, Regions, x86_regions, sparc_regions, sizeof_barrier, sizeof_msg,
}

-- the next multiple of 64
abbrev pub aligned : ℕ → ℕ
aligned v = (v + 63) / 64 * 64

inc_align_loop-suc :
    (fuel v : ℕ)
    → inc_align_loop (suc fuel) v
      ≡ (if v % 64 == 0 then v else inc_align_loop fuel ((v + 1) % 2 ^ 32))
unfolding inc_align_loop
inc_align_loop-suc fuel v = refl

inc_align_loop_lem :
    (fuel v : ℕ) → aligned v < 2 ^ 32 → aligned v < v + fuel + 1 → inc_align_loop fuel v ≡ aligned v
unfolding inc_align_loop
inc_align_loop_lem zero v small enough = omega arith
inc_align_loop_lem (suc fuel) v small enough = elim (ℕ_discrete (v % 64) 0) [
  | yes e ↦ ground (arith, inc_align_loop-suc fuel v)
  | no ne ↦
      let wrap : (v + 1) % 2 ^ 32 ≡ v + 1 = mod-eq_of_lt {n = v + 1} {m = 2 ^ 32} (omega arith) in
      let same : aligned (v + 1) ≡ aligned v = omega arith in
      let rest : inc_align_loop fuel ((v + 1) % 2 ^ 32) ≡ aligned v =
        rw (wrap) (inc_align_loop_lem fuel (v + 1) (omega arith) (omega arith) ∙ same) in
      ground (arith, inc_align_loop-suc fuel v, rest)
]

-- `SSMP_INC_ALIGN` ends within 64 rounds with the next multiple of 64, unless it is near 2 ^ 32.
pub inc_align_lem : (v : ℕ) → v + 64 < 2 ^ 32 → inc_align v ≡ aligned v
unfolding inc_align
inc_align_lem v small = inc_align_loop_lem 64 v (omega arith) (omega arith)

-- Regions for `m` messages, 16 barriers, `n` integers and `n` chunks of `c` bytes, one after another and
-- each at the start of a cache line.
pub record IsLaidOut (r : Regions) (m n c : ℕ) : Type 0 where
  pub messages_fit : r.messages + m * sizeof_msg ≤ r.barriers
  pub barriers_fit : r.barriers + 16 * sizeof_barrier ≤ r.initialized
  pub initialized_fit : r.initialized + n * 4 ≤ r.chunks
  pub chunks_fit : r.chunks + n * c ≤ r.size
  pub aligned_barriers : r.barriers % 64 ≡ 0
  pub aligned_initialized : r.initialized % 64 ≡ 0
  pub aligned_chunks : r.chunks % 64 ≡ 0

-- On x86 the regions of the shared memory (16 barriers, `n` integers, `n` chunks of `c` bytes)
-- follow one another, do not overlap and start at cache lines, as long as n * 4 + n * c + 2048 is
-- below 2 ^ 32.
pub x86_regions-IsLaidOut :
    (c n : ℕ) → n * 4 + n * c + 2048 < 2 ^ 32 → IsLaidOut (x86_regions c n) 0 n c
unfolding x86_regions
x86_regions-IsLaidOut c n small = record {
  messages_fit = omega arith;
  barriers_fit = ground (arith, inc_align_lem 1024);
  initialized_fit = ground (arith, inc_align_lem 1024, inc_align_lem (n * 4 % 2 ^ 32));
  chunks_fit =
      ground
        (arith, inc_align_lem 1024, inc_align_lem (n * 4 % 2 ^ 32), inc_align_lem (n * c % 2 ^ 32));
  aligned_barriers = refl;
  aligned_initialized = ground (arith, inc_align_lem 1024);
  aligned_chunks = ground (arith, inc_align_lem 1024, inc_align_lem (n * 4 % 2 ^ 32));
}

-- On SPARC neither, with the messages of every pair of processes in front.
pub sparc_regions-IsLaidOut :
    (c n : ℕ)
    → n * n * sizeof_msg + n * 4 + n * c + 2048 < 2 ^ 32
    → IsLaidOut (sparc_regions c n) (n * n) n c
unfolding sparc_regions
sparc_regions-IsLaidOut c n small = record {
  messages_fit = ground arith;
  barriers_fit = ground (arith, inc_align_lem 1024);
  initialized_fit = ground (arith, inc_align_lem 1024, inc_align_lem (n * 4 % 2 ^ 32));
  chunks_fit =
      ground
        (arith, inc_align_lem 1024, inc_align_lem (n * 4 % 2 ^ 32), inc_align_lem (n * c % 2 ^ 32));
  aligned_barriers = ground arith;
  aligned_initialized = ground (arith, inc_align_lem 1024);
  aligned_chunks = ground (arith, inc_align_lem 1024, inc_align_lem (n * 4 % 2 ^ 32));
}
