-- ===== src/Barrier.antt =====
-- The barriers of src/ssmp.c and src/arch/x86/ssmp_arch.c (the SPARC port has the same code).
pub mod Count
pub mod System
pub mod Invariant
pub mod Safety
pub mod Init
mod Tests
pub mod Progress
pub mod Leave
pub mod Crossing
use ssmp.Base.{
  ℕ, zero, suc, ◌+◌, ◌-◌, ◌*◌, ◌/◌, ◌%◌, ◌^◌, Bool, ◌&&◌, Option, none, some, List, [], ◌∷◌,
  if◌then◌else◌, ltb, ◌==◌, set, replicate,
}
use ssmp.Base.Outcome.{Outcome, done, fault}
use ssmp.Base.Int.{ℤ, pos, negsuc}

abbrev pub ssmp_num_barriers : ℕ
ssmp_num_barriers = 16

abbrev pub u32 : ℕ → ℕ
u32 n = n % 2 ^ 32

-- A color function takes an id and returns an `int`, here by its 32-bit pattern.
abbrev pub Color : Type 0
Color = ℕ → ℕ

-- `ssmp_barrier_t`; a NULL color function is `none`.
pub record Barrier : Type 0 where
  pub participants : ℕ
  pub color : Option Color
  pub ticket : ℕ
  pub cleared : ℕ

abbrev pub all_ones : ℕ
all_ones = 0xFFFF_FFFF_FFFF_FFFF

-- `ssmp_color_app`
unfoldable pub color_app : Color
color_app id = if id % 3 == 0 then 0 else 1

-- `ssmp_get_barrier`: the offset of the pointer that is returned, `none` for NULL.
unfoldable pub get_barrier : ℤ → Option ℤ
get_barrier (pos n) = if ltb n ssmp_num_barriers then some (pos n) else none
get_barrier (negsuc n) = some (negsuc n)

abbrev pub fresh_barrier : Option Color → Barrier
fresh_barrier c = record { participants = all_ones; color = c; ticket = 0; cleared = 0 }

-- `ssmp_barrier_init_platf`: a negative number passes the guard, and the argument `participants` is not used.
unfoldable pub barrier_init : ℤ → ℕ → Option Color → List Barrier → Outcome (List Barrier)
barrier_init (pos n) participants color bs =
    if ltb n ssmp_num_barriers then done (set bs n (fresh_barrier color)) else done bs
barrier_init (negsuc n) participants color bs = fault

-- One round of the loop of `ssmp_barrier_wait_platf`: what process `from` counts for.
-- The bitmap is read at its lowest bit, and shifted once for each round.
unfoldable pub count_of : Option Color → ℕ → ℕ → ℕ
count_of (some col) from bpar = col from
count_of none from bpar = bpar % 2

-- The loop over `from`, with `k` rounds left: `none` is the early return of a process that does not
-- take part, `some` the number of participants.
unfoldable pub count_loop : Option Color → ℕ → ℕ → ℕ → ℕ → ℕ → Option ℕ
unfolding count_of
count_loop c id zero from bpar num_part = some num_part
count_loop c id (suc k) from bpar num_part =
    let c_from = count_of c from bpar in
    let rest = count_loop c id k (from + 1) (bpar / 2) (u32 (num_part + c_from)) in
    if (from == id) && (c_from == 0) then none else rest

unfoldable pub count_part : Barrier → ℕ → ℕ → Option ℕ
unfolding count_loop
count_part b id num_ues = count_loop b.color id num_ues 0 (b.participants % 2 ^ 64) 0
