-- ===== src/Barrier/Init.antt =====
-- The barriers that `ssmp_init_platf` leaves (src/arch/x86/ssmp_arch.c).
use ssmp.Base.{
  subst, ℕ, zero, suc, ◌+◌, ◌≤◌, ◌<◌, ◌≡◌, refl, arith, List, Option, none, some, get_elem?, set,
  length, length-set, get_elem?-set_self, get_elem?-set_ne, if◌then◌else◌, ◌==◌, lt→ltb, ℕ_discrete,
  ◌∙◌,
}
use ssmp.Base.Int.{pos}
use ssmp.Base.Outcome.{Outcome, done, ◌>>=◌}
use ssmp.Barrier.{Barrier, Color, fresh_barrier, barrier_init, all_ones, color_app}

-- `for (bar = 0; bar < SSMP_NUM_BARRIERS; bar++) ssmp_barrier_init(bar, …, NULL);` with `k` rounds left
unfoldable pub init_loop : ℕ → ℕ → List Barrier → Outcome (List Barrier)
init_loop zero bar bs = done bs
init_loop (suc k) bar bs =
    barrier_init (pos bar) all_ones none bs >>= λ bs'. init_loop k (bar + 1) bs'

-- the end of `ssmp_init_platf`
unfoldable pub init_barriers : List Barrier → Outcome (List Barrier)
unfolding init_loop
init_barriers bs = init_loop 16 0 bs >>= λ bs'. barrier_init (pos 1) all_ones (some color_app) bs'

init_one :
    (bar : ℕ) (c : Option Color) (bs : List Barrier)
    → bar < 16
    → barrier_init (pos bar) all_ones c bs ≡ done (set bs bar (fresh_barrier c))
unfolding barrier_init
init_one bar c bs lt = rw (lt→ltb bar 16 lt) refl

abbrev Fresh : List Barrier → ℕ → Type 0
Fresh bs j = get_elem? bs j ≡ some (fresh_barrier none)

init_loop_lem :
    (k bar : ℕ) (bs : List Barrier)
    → bar + k ≤ 16
    → length bs ≡ 16
    → (bs' : List Barrier) × (init_loop k bar bs ≡ done bs')
      × (length bs' ≡ 16)
      × ((j : ℕ) → j < bar → get_elem? bs' j ≡ get_elem? bs j)
      × ((j : ℕ) → bar ≤ j → j < bar + k → Fresh bs' j)
unfolding init_loop
init_loop_lem zero bar bs le len = (bs, refl, len, λ j lt. refl, λ j le' lt. absurd (omega arith))
init_loop_lem (suc k) bar bs le len =
    let one : List Barrier = set bs bar (fresh_barrier none) in
    let (bs', ret, len', same, all) =
      init_loop_lem k (bar + 1) one (omega arith) (length-set bs bar (fresh_barrier none) ∙ len) in
    (
      bs',
      rw (init_one bar none bs (omega arith), ◌>>=◌) ret,
      len',
      λ j lt. same j (omega arith) ∙ get_elem?-set_ne bs (fresh_barrier none) (omega arith),
      λ j lo hi. elim (ℕ_discrete bar j) [
        | yes e ↦
            subst (Fresh bs') e (
              same bar (omega arith) ∙ get_elem?-set_self bs bar (fresh_barrier none) (omega arith))
        | no ne ↦ all j (omega arith) (omega arith)
      ],
    )

-- After `ssmp_init`, whatever the 16 barriers were before, each is fresh: barrier 1 has the color
-- function `ssmp_color_app`, and the others have none.
pub init_barriers_lem :
    (bs : List Barrier)
    → length bs ≡ 16
    → (bs' : List Barrier) × (init_barriers bs ≡ done bs')
      × ((j : ℕ)
          → j < 16
          → get_elem? bs' j ≡ some (fresh_barrier (if j == 1 then some color_app else none)))
unfolding init_barriers
init_barriers_lem bs len =
    let (bs', ret, len', same, all) = init_loop_lem 16 0 bs (omega arith) len in
    (
      set bs' 1 (fresh_barrier (some color_app)),
      rw (ret, ◌>>=◌) (init_one 1 (some color_app) bs' (omega arith)),
      λ j lt. elim (ℕ_discrete 1 j) [
        | yes e ↦ ground (arith, get_elem?-set_self bs' 1 (fresh_barrier (some color_app)), e)
        | no ne ↦
            ground (
              arith,
              get_elem?-set_ne bs' {i = 1} {j = j} (fresh_barrier (some color_app)) ne,
              all j,
            )
      ],
    )
