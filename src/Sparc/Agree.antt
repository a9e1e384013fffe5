-- ===== src/Sparc/Agree.antt =====
-- SPARC and x86 have the same color buffers and the same counts.
use ssmp.Base.{
  ℕ, zero, suc, ◌+◌, ◌/◌, ◌%◌, ◌^◌, ◌≡◌, refl, arith, none, some, if◌then◌else◌, ◌==◌, inl, inr, ap,
  ap₂, sym, subst, Option-cases, ◌&&◌,
}
use ssmp.Base.Outcome.{done, ◌>>=◌, >>_then}
use ssmp.Barrier
use ssmp.Barrier.{Barrier, Color, u32}
use ssmp.ColorBuf
use ssmp.ColorBuf.{ColorBuf, Malloc, need}
use ssmp.Sparc.{padded, size_buf, size_from, color_buf_init, count_loop, count_part}

size_buf-x86 : (n : ℕ) → size_buf n ≡ ColorBuf.size_buf n
unfolding size_buf padded ColorBuf.size_buf
size_buf-x86 n = ground arith

size_from-x86 : (n : ℕ) → size_from n ≡ ColorBuf.size_from n
unfolding size_from padded ColorBuf.size_from
size_from-x86 n = ground arith

-- On SPARC `ssmp_color_buf_init` does what it does on x86 for a color buffer that is not NULL:
-- the same entries, and the same exit if an allocation fails.
pub color_buf_init-x86 :
    (malloc : Malloc) (junk id num_ues : ℕ) (c : ColorBuf) (color : ℕ → ℕ)
    → ColorBuf.color_buf_init malloc junk id num_ues (some c) color
      ≡ (color_buf_init malloc junk id num_ues color >>= λ c'. done (some c'))
unfolding color_buf_init ColorBuf.color_buf_init ColorBuf.allocated
color_buf_init-x86 malloc junk id num_ues c color = simp (>>_then, size_buf-x86, size_from-x86)

count_loop-color :
    (col : Color) (id k from bpar bpar' np : ℕ)
    → count_loop (some col) id k from bpar np ≡ Barrier.count_loop (some col) id k from bpar' np
unfolding count_loop Barrier.count_loop Barrier.count_of
count_loop-color col id zero from bpar bpar' np = refl
count_loop-color col id (suc k) from bpar bpar' np =
    ap (λ r. if (from == id) && (col from == 0) then none else r)
      (count_loop-color col id k (from + 1) bpar (bpar' / 2) (u32 (np + col from)))

same_number : (a b : ℕ) → (a == b) ≡ (b == a)
same_number a b = ground arith

count_loop-bitmap :
    (id k from bpar np : ℕ)
    → count_loop none id k from bpar np ≡ Barrier.count_loop none id k from bpar np
unfolding count_loop Barrier.count_loop Barrier.count_of
count_loop-bitmap id zero from bpar np = refl
count_loop-bitmap id (suc k) from bpar np =
    ap₂ (λ t r. if t && (bpar % 2 == 0) then none else r) (same_number id from)
      (count_loop-bitmap id k (from + 1) (bpar / 2) (u32 (np + bpar % 2)))

-- The counting loop of `ssmp_barrier_wait` computes the same on SPARC as on x86, for every
-- barrier and process.
pub count_part-x86 :
    (b : Barrier) (id num_ues : ℕ) → count_part b id num_ues ≡ Barrier.count_part b id num_ues
unfolding count_part Barrier.count_part
count_part-x86 b id num_ues = elim (Option-cases b.color) [
  | inl e ↦
      subst
        (λ c.
          count_loop c id num_ues 0 (b.participants % 2 ^ 64) 0
          ≡ Barrier.count_loop c id num_ues 0 (b.participants % 2 ^ 64) 0)
        (sym e) (count_loop-bitmap id num_ues 0 _ 0)
  | inr (col, e) ↦
      subst
        (λ c.
          count_loop c id num_ues 0 (b.participants % 2 ^ 64) 0
          ≡ Barrier.count_loop c id num_ues 0 (b.participants % 2 ^ 64) 0)
        (sym e) (count_loop-color col id num_ues 0 _ _ 0)
]
