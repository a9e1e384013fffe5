-- ===== src/Bank/Exit/Tests.antt =====
-- Five processes, of which 0, 2 and 4 are servers.
use ssmp.Base.{ℕ, ◌≡◌, ◌≢◌, ◌<◌, refl, arith, List, [], ◌∷◌, length}
use ssmp.Base.Outcome.{done}
use ssmp.Bank.{color_dsl, color_app1, setup}
use ssmp.Bank.Exit.{exits, results_loop, occurrences, exits_lem}

exits_run : exits 2 5 1 ≡ done (0 ∷ 2 ∷ 4 ∷ [])
unfolding exits setup color_dsl
exits_run = refl

-- If every process is a server, nobody sends EXIT.
exits_none : (exits 1 2 0 ≡ done []) × (exits 1 2 1 ≡ done [])
unfolding exits setup color_dsl
exits_none = (refl, refl)

results_run : results_loop 2 5 0 ≡ 1 ∷ 3 ∷ []
unfolding results_loop color_app1 color_dsl
results_run = refl

exits_lem_example :
    (ds : List ℕ) × (exits 2 5 1 ≡ done ds)
    × (length ds ≡ (setup 2 5).num_dsl)
    × ((d : ℕ) → d < 5 → occurrences d ds ≡ color_dsl 2 d)
    × ((id : ℕ) → id ≢ 1 → exits 2 5 id ≡ done [])
    × ((d : ℕ) → d < 5 → occurrences d (results_loop 2 5 0) ≡ color_app1 2 d)
exits_lem_example = exits_lem 2 5 (omega arith) (omega arith) (omega arith)
