-- ===== src/Startup.antt =====
-- `ssmp_init_platf` and `ssmp_mem_init_platf` of src/arch/x86/ssmp_arch.c: the calls of the system and
-- the arrays of pointers that a process ends up with.
pub mod Partly
pub mod Tables
pub mod Ready
pub mod Start
mod Tests
use ssmp.Base.{
  ℕ, zero, suc, ◌+◌, ◌-◌, ◌%◌, Bool, true, false, ◌&&◌, List, Option, none, some, set, replicate,
  if◌then◌else◌, ◌==◌, ltb,
}
use ssmp.Base.Outcome.{Outcome, done, exited, ◌>>=◌, ◌>>◌}
use ssmp.Barrier.{Barrier}
use ssmp.Barrier.Init.{init_barriers}
use ssmp.Layout.{Regions, x86_regions}

-- What the system answers about the shared memory `k`: whether `shm_open` creates it, whether it says
-- EEXIST if not, whether it opens it then, whether `ftruncate` succeeds, and the address from `mmap`.
pub record Os : Type 0 where
  pub create : ℕ → Bool
  pub existed : ℕ → Bool
  pub reopen : ℕ → Bool
  pub truncate : ℕ → Bool
  pub map : ℕ → ℕ

-- From `shm_open` to the test of the address. The test is for NULL, which is not what `mmap` returns
-- when it fails.
unfoldable pub open_shared : Os → ℕ → Outcome (Unit {0})
open_shared os k = (do
  (if os.create k
      then (if os.truncate k then done tt else exited 1)
      else (if os.existed k then (if os.reopen k then done tt else exited 1) else exited 1))
  (if os.map k == 0 then exited 134 else done tt))

-- A buffer: the memory that it stands in, by its owner, and its place there.
abbrev pub Place : Type 0
Place = ℕ × ℕ

-- `ssmp_recv_buf`, `ssmp_send_buf` and `ssmp_chunk_buf`; `none` is a pointer that nobody has set.
pub record Arrays : Type 0 where
  pub recv_buf : List (Option Place)
  pub send_buf : List (Option Place)
  pub chunk_buf : List (Option ℕ)

-- One round of the first loop of `ssmp_mem_init_platf`. The states that it sets to 0 are memory of the
-- buffers and not kept here.
unfoldable pub own_round : (id core : ℕ) → Arrays → Arrays
own_round id core a = record a {
  chunk_buf = set a.chunk_buf core (some core);
  recv_buf =
      if id == core
      then a.recv_buf
      else set a.recv_buf core (some (id, if ltb id core then core - 1 else core));
}

-- that loop from `core` on, with `k` rounds left
unfoldable pub own_loop : (id k core : ℕ) → Arrays → Arrays
unfolding own_round
own_loop id zero core a = a
own_loop id (suc k) core a = own_loop id k (core + 1) (own_round id core a)

-- The second loop, over the memories of the other processes. The shared memory of process `core` has
-- the number `core`.
unfoldable pub send_loop : Os → (id k core : ℕ) → Arrays → Outcome Arrays
unfolding open_shared
send_loop os id zero core a = done a
send_loop os id (suc k) core a = elim (core == id) [
  | true ↦ send_loop os id k (core + 1) a
  | false ↦
      open_shared os core
      >> send_loop os id k (core + 1) (record a {
        send_buf = set a.send_buf core (some (core, if ltb core id then id - 1 else id));
      })
]

unfoldable pub allocated : ℕ → Arrays
allocated n = record {
  recv_buf = replicate n none;
  send_buf = replicate n none;
  chunk_buf = replicate n none;
}

-- `ssmp_mem_init_platf`. `allocs` is whether the three allocations succeed, `meet` is
-- `ssmp_barrier_wait(0)`, and `all_ready` the loop that waits for the other processes at the end.
unfoldable pub mem_init :
    Os → Bool → (meet all_ready : Outcome (Unit {0})) → (id num_ues : ℕ) → Outcome Arrays
unfolding open_shared own_loop send_loop allocated
mem_init os allocs meet all_ready id n = do
  (if allocs then done tt else exited 255)
  (if n == 1 then done (allocated n) else (do
    open_shared os id
    let own = own_loop id n 0 (allocated n)
    meet
    a ← send_loop os id n 0 own
    all_ready
    done a))

-- `ssmp_init_platf` for `n` processes with chunks of `c` bytes. The memory that all processes share has
-- the number `mem`.
unfoldable pub init : Os → (mem c n : ℕ) → List Barrier → Outcome (Regions × List Barrier)
unfolding open_shared
init os mem c n bs = do open_shared os mem; bs' ← init_barriers bs; done (x86_regions c n, bs')
