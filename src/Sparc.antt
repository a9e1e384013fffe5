-- ===== src/Sparc.antt =====
-- src/arch/sparc/ssmp_arch.c: color buffers and the counting of the barrier on SPARC. The rest of the
-- barrier is in Sparc/Wait.
pub mod Agree
pub mod Startup
pub mod Wait
mod Tests
use ssmp.Base.{
  ℕ, zero, suc, ◌+◌, ◌-◌, ◌*◌, ◌/◌, ◌%◌, ◌^◌, Bool, ◌&&◌, List, Option, none, some, replicate, set,
  if◌then◌else◌, ◌==◌, ltb,
}
use ssmp.Base.Int.{ℤ, pos, negsuc}
use ssmp.Base.Outcome.{Outcome, done, fault, ◌>>=◌, ◌>>◌}
use ssmp.Barrier.{Barrier, Color, u32, ssmp_num_barriers, all_ones}
use ssmp.ColorBuf.{ColorBuf, Malloc, need, marks, count_marks, fill}

-- a size that is rounded up to whole cache lines by elements of `e` bytes
unfoldable pub padded : ℕ → ℕ → ℕ
padded e size = if size % 64 == 0 then size else u32 (size + (64 - size % 64) / e * e)

unfoldable pub size_buf : ℕ → ℕ
unfolding padded
size_buf num_ues = padded 8 (u32 (num_ues * 8))

unfoldable pub size_from : ℕ → ℕ
unfolding padded
size_from num_ues = padded 1 (u32 num_ues)

-- `ssmp_color_buf_init_platf`, which does not test `cbuf` for NULL
unfoldable pub color_buf_init : Malloc → ℕ → (id num_ues : ℕ) → (ℕ → ℕ) → Outcome ColorBuf
unfolding size_buf size_from
color_buf_init malloc junk id num_ues color = do
  need malloc 0 (num_ues * 4)
  let participants = marks color id num_ues 0
  let n = count_marks participants 0
  need malloc 1 (size_buf n)
  need malloc 2 (size_buf n)
  need malloc 3 (size_from n)
  done (
      fill participants 0 0 (record {
        num_ues = n;
        buf_state = replicate (size_buf n / 8) junk;
        buf = replicate (size_buf n / 8) junk;
        from = replicate (size_from n) junk;
      }))

-- `ssmp_barrier_init_platf`
unfoldable pub barrier_init : ℤ → ℕ → Option Color → List Barrier → Outcome (List Barrier)
barrier_init (pos n) participants color bs =
    if ltb n ssmp_num_barriers
    then done
        (set bs n (record { participants = all_ones; color = color; ticket = 0; cleared = 0 }))
    else done bs
barrier_init (negsuc n) participants color bs = fault

-- The counting loop of `ssmp_barrier_wait_platf`. It adds before it returns early, and shifts the
-- bitmap only without a color function.
unfoldable pub count_loop : Option Color → ℕ → ℕ → ℕ → ℕ → ℕ → Option ℕ
count_loop c id zero from bpar num_part = some num_part
count_loop (some col) id (suc k) from bpar num_part =
    let rest = count_loop (some col) id k (from + 1) bpar (u32 (num_part + col from)) in
    if (from == id) && (col from == 0) then none else rest
count_loop none id (suc k) from bpar num_part =
    let is_part = bpar % 2 in
    let rest = count_loop none id k (from + 1) (bpar / 2) (u32 (num_part + is_part)) in
    if (id == from) && (is_part == 0) then none else rest

unfoldable pub count_part : Barrier → ℕ → ℕ → Option ℕ
unfolding count_loop
count_part b id num_ues = count_loop b.color id num_ues 0 (b.participants % 2 ^ 64) 0
