-- ===== src/ColorBuf/Tests.antt =====
-- Concrete color buffers, and the theorems at them.
use ssmp.Base.{ℕ, ◌%◌, ◌^◌, ◌<◌, ◌≢◌, ◌↔◌, ◌≡◌, refl, true, arith, some}
use ssmp.Base.Outcome.{done}
use ssmp.ColorBuf.{ColorBuf, IsFilled, Malloc, color_buf_init, allocated}
use ssmp.ColorBuf.Partners.{color_buf_init_lem}

abbrev plenty : Malloc
plenty _ _ = true

-- the color of the odd ids
abbrev odd : ℕ → ℕ
odd i = i % 2

color_buf_init_lem_example :
    (c' : ColorBuf) × (peer : ℕ → ℕ) × (color_buf_init plenty 0 1 6 (some (allocated 0 0)) odd
      ≡ done (some c'))
    × IsFilled c' peer
    × ((p : ℕ)
        → ((i : ℕ) × (i < c'.num_ues) × (peer i ≡ p)) ↔ ((p < 6) × (p ≢ 1) × (odd p % 2 ^ 32 ≢ 0)))
    × ((i j : ℕ) → i < j → j < c'.num_ues → peer i < peer j)
color_buf_init_lem_example =
    color_buf_init_lem plenty 0 1 6 (allocated 0 0) odd (λ k size. refl) (omega arith)
