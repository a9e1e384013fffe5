-- ===== src/Layout.antt =====
-- The shared memory: its regions (`ssmp_init_platf`) and the buffers of each pair of processes
-- (`ssmp_mem_init_platf`), in src/arch/x86/ssmp_arch.c and src/arch/sparc/ssmp_arch.c.
pub mod Areas
pub mod Pairs
mod Tests
use ssmp.Base.{
  ℕ, zero, suc, ◌+◌, ◌-◌, ◌*◌, ◌/◌, ◌%◌, ◌^◌, if◌then◌else◌, ◌==◌, ltb, Option, none, some,
}
use ssmp.ColorBuf.{ssmp_cache_line_size}

abbrev u32 : ℕ → ℕ
u32 n = n % 2 ^ 32

-- `SSMP_INC_ALIGN(v)` on a 32-bit variable; the fuel bounds the rounds of its loop.
unfoldable pub inc_align_loop : ℕ → ℕ → ℕ
inc_align_loop zero v = v
inc_align_loop (suc fuel) v =
    let rest = inc_align_loop fuel (u32 (v + 1)) in
    if v % ssmp_cache_line_size == 0 then v else rest

unfoldable pub inc_align : ℕ → ℕ
unfolding inc_align_loop
inc_align v = inc_align_loop ssmp_cache_line_size v

-- `ssmp_barrier_t` takes a cache line, as does a message.
abbrev pub sizeof_barrier : ℕ
sizeof_barrier = 64

abbrev pub sizeof_msg : ℕ
sizeof_msg = 64

-- Where the regions of the shared memory start, in bytes from its start, and its size.
pub record Regions : Type 0 where
  pub messages : ℕ
  pub barriers : ℕ
  pub initialized : ℕ
  pub chunks : ℕ
  pub size : ℕ

-- `ssmp_init_platf` on x86 for `n` processes, with chunks of `c` bytes
unfoldable pub x86_regions : ℕ → ℕ → Regions
unfolding inc_align
x86_regions c n =
    let sizeb = inc_align (16 * sizeof_barrier) in
    let sizeui = inc_align (u32 (n * 4)) in
    let sizecnk = inc_align (u32 (n * c)) in
    record {
      messages = 0;
      barriers = 0;
      initialized = u32 sizeb;
      chunks = u32 (sizeb + sizeui);
      size = u32 (sizeb + sizeui + sizecnk);
    }

-- `ssmp_init_platf` on SPARC, where the messages stand in this memory too
unfoldable pub sparc_regions : ℕ → ℕ → Regions
unfolding inc_align
sparc_regions c n =
    let sizem = u32 (n * n * sizeof_msg) in
    let sizeb = inc_align (16 * sizeof_barrier) in
    let sizeui = inc_align (u32 (n * 4)) in
    let sizecnk = inc_align (u32 (n * c)) in
    record {
      messages = 0;
      barriers = sizem;
      initialized = u32 (sizem + sizeb);
      chunks = u32 (sizem + sizeb + sizeui);
      size = u32 (sizem + sizeb + sizeui + sizecnk);
    }

-- `ssmp_mem_init_platf` on x86: every process has a memory of its own with a buffer for every other
-- process. The buffer that process `id` receives in from `core`, `none` for itself.
unfoldable pub x86_recv_buf : (id core : ℕ) → Option (ℕ × ℕ)
x86_recv_buf id core =
    if id == core then none else some (id, if ltb id core then core - 1 else core)

-- The buffer that process `id` sends to `core` in: the memory of `core`, and the place in it.
unfoldable pub x86_send_buf : (id core : ℕ) → Option (ℕ × ℕ)
x86_send_buf id core = if core == id then none else some (core, if ltb core id then id - 1 else id)

-- `ssmp_mem_init_platf` on SPARC: the place among the `n * n` messages of the shared memory
unfoldable pub sparc_recv_buf : (n id core : ℕ) → ℕ
sparc_recv_buf n id core = id * n + core

unfoldable pub sparc_send_buf : (n id core : ℕ) → ℕ
sparc_send_buf n id core = core * n + id

-- the initial `last_recv_from`
unfoldable pub last_recv_from : (id num_ues : ℕ) → ℕ
last_recv_from id num_ues = (id + 1) % num_ues
