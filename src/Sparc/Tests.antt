-- ===== src/Sparc/Tests.antt =====
-- Concrete counts on SPARC.
use ssmp.Base.{[], ◌∷◌, ℕ, ◌≡◌, refl, some, true, ◌%◌}
use ssmp.Base.Outcome.{done}
use ssmp.Barrier.{fresh_barrier, color_app}
use ssmp.ColorBuf.{Malloc}
use ssmp.Sparc.{count_part, count_loop}
use ssmp.Layout.{sparc_recv_buf, sparc_send_buf}
use ssmp.Sparc.Startup.{sparc_mem_init, sparc_loop}

abbrev plenty : Malloc
plenty _ _ = true

abbrev odd_ids : ℕ → ℕ
odd_ids i = i % 2

-- of the ids 0 to 5, four are no multiples of 3
count_part-run : count_part (fresh_barrier (some color_app)) 1 6 ≡ some 4
unfolding count_part count_loop color_app
count_part-run = refl

-- Process 1 of 3 receives in the second row of the messages, and sends in the second column.
mem_init-run :
    sparc_mem_init true (done tt) 1 3
    ≡ done (record {
      recvs = some 3 ∷ some 4 ∷ some 5 ∷ [];
      sends = some 1 ∷ some 4 ∷ some 7 ∷ [];
      chunks = some 0 ∷ some 1 ∷ some 2 ∷ [];
    })
unfolding sparc_mem_init sparc_loop sparc_recv_buf sparc_send_buf
mem_init-run = refl
