-- ===== src/Sparc/Startup.antt =====
-- `ssmp_init_platf` and `ssmp_mem_init_platf` of src/arch/sparc/ssmp_arch.c.
use ssmp.Base.{ℕ, zero, suc, ◌+◌, Bool, List, Option, none, some, set, replicate, if◌then◌else◌}
use ssmp.Base.Outcome.{Outcome, done, exited, ◌>>=◌, ◌>>◌}
use ssmp.Barrier.{Barrier, all_ones, color_app}
use ssmp.Base.Int.{pos}
use ssmp.Layout.{Regions, sparc_regions, sparc_recv_buf, sparc_send_buf}
use ssmp.Sparc.{barrier_init}
use ssmp.Startup.{Os, open_shared}

-- the loop over the barriers, with `k` rounds left
unfoldable pub sparc_init_loop : ℕ → ℕ → List Barrier → Outcome (List Barrier)
sparc_init_loop zero bar bs = done bs
sparc_init_loop (suc k) bar bs = do
  bs' ← barrier_init (pos bar) all_ones none bs
  sparc_init_loop k (bar + 1) bs'

-- `ssmp_init_platf`
unfoldable pub sparc_init : Os → (mem c n : ℕ) → List Barrier → Outcome (Regions × List Barrier)
unfolding sparc_init_loop
sparc_init os mem c n bs = do
  open_shared os mem
  bs' ← sparc_init_loop 16 0 bs
  bs'' ← barrier_init (pos 1) all_ones (some color_app) bs'
  done (sparc_regions c n, bs'')

-- The arrays of pointers, by the places of their buffers among the messages of the shared memory.
pub record SparcArrays : Type 0 where
  pub recvs : List (Option ℕ)
  pub sends : List (Option ℕ)
  pub chunks : List (Option ℕ)

-- The loop of `ssmp_mem_init_platf` from `core` on, with `k` rounds left. The states that it sets to 0
-- are memory of the buffers and not kept here.
unfoldable pub sparc_loop : (n id k core : ℕ) → SparcArrays → SparcArrays
unfolding sparc_recv_buf sparc_send_buf
sparc_loop n id zero core a = a
sparc_loop n id (suc k) core a = sparc_loop n id k (core + 1) (record {
  recvs = set a.recvs core (some (sparc_recv_buf n id core));
  sends = set a.sends core (some (sparc_send_buf n id core));
  chunks = set a.chunks core (some core);
})

-- `ssmp_mem_init_platf`; `all_ready` is the loop that waits for the other processes at the end.
unfoldable pub sparc_mem_init :
    (allocs : Bool) → Outcome (Unit {0}) → (id n : ℕ) → Outcome SparcArrays
unfolding sparc_loop
sparc_mem_init allocs all_ready id n = do
  (if allocs then done tt else exited 255)
  let a =
      sparc_loop n id n 0
        (record { recvs = replicate n none; sends = replicate n none; chunks = replicate n none })
  all_ready
  done a
