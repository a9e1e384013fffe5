-- ===== src/ColorBuf.antt =====
-- The color buffers of src/include/ssmp.h, and how src/arch/x86/ssmp_arch.c fills them.
pub mod Fill
pub mod Init
pub mod Partners
mod Tests
use ssmp.Base.{
  ℕ, zero, suc, ◌+◌, ◌-◌, ◌*◌, ◌/◌, ◌%◌, ◌^◌, ◌<◌, ◌≡◌, Bool, List, [], ◌∷◌, Option, none, some,
  get_elem?, set, replicate, if◌then◌else◌, ◌==◌, ltb,
}
use ssmp.Base.Outcome.{Outcome, done, exited, ◌>>=◌, ◌>>◌}

-- `ssmp_color_buf_t`. `buf` and `buf_state` point to receive buffers and to their states: here they
-- hold the ids that `ssmp_recv_buf` has those buffers under.
pub record ColorBuf : Type 0 where
  pub num_ues : ℕ
  pub buf_state : List ℕ
  pub buf : List ℕ
  pub from : List ℕ

-- The first `num_ues` entries of the three arrays are about the same buffers: entry `i` about the one
-- that `peer i` sends to, with the id of `peer i` as a byte.
pub record IsFilled (c : ColorBuf) (peer : ℕ → ℕ) : Type 0 where
  pub states : (i : ℕ) → i < c.num_ues → get_elem? c.buf_state i ≡ some (peer i)
  pub bufs : (i : ℕ) → i < c.num_ues → get_elem? c.buf i ≡ some (peer i)
  pub froms : (i : ℕ) → i < c.num_ues → get_elem? c.from i ≡ some (peer i % 2 ^ 8)

-- The array `participants`, from process `ue` on, with `k` processes left.
unfoldable pub marks : (ℕ → ℕ) → ℕ → ℕ → ℕ → List ℕ
marks color id zero ue = []
marks color id (suc k) ue = (if ue == id then 0 else color ue % 2 ^ 32) ∷ marks color id k (ue + 1)

-- `num_ues`, a `uint32_t`, after the first loop
unfoldable pub count_marks : List ℕ → ℕ → ℕ
count_marks [] num_ues = num_ues
count_marks (p ∷ ps) num_ues = count_marks ps (if p == 0 then num_ues else (num_ues + 1) % 2 ^ 32)

abbrev pub ssmp_cache_line_size : ℕ
ssmp_cache_line_size = 64

-- a `uint32_t` size, rounded up to whole cache lines
unfoldable pub padded : ℕ → ℕ
padded size =
    if size % ssmp_cache_line_size == 0
    then size
    else (size + (ssmp_cache_line_size - size % ssmp_cache_line_size)) % 2 ^ 32

-- One entry. A write out of bounds changes nothing.
unfoldable pub store_entry : ℕ → ℕ → ColorBuf → ColorBuf
store_entry k ue c = record c {
  buf_state = set c.buf_state k ue;
  buf = set c.buf k ue;
  from = set c.from k (ue % 2 ^ 8);
}

-- The last loop, from process `ue` on; `k` is `buf_num`.
unfoldable pub fill : List ℕ → ℕ → ℕ → ColorBuf → ColorBuf
fill [] ue k c = c
fill (p ∷ ps) ue k c =
    fill ps (ue + 1) (if p == 0 then k else k + 1) (if p == 0 then c else store_entry k ue c)

-- `malloc`: whether the `k`-th allocation of the call, of so many bytes, succeeds.
abbrev pub Malloc : Type 0
Malloc = ℕ → ℕ → Bool

-- `p = malloc(size); if (p == NULL) exit(-1);`
unfoldable pub need : Malloc → ℕ → ℕ → Outcome (Unit {0})
need malloc k size = if malloc k size then done tt else exited 255

-- the sizes of `buf` and `buf_state`, and of `from`
unfoldable pub size_buf : ℕ → ℕ
unfolding padded
size_buf num_ues = padded (num_ues * 8 % 2 ^ 32)

unfoldable pub size_from : ℕ → ℕ
unfolding padded
size_from num_ues = padded (num_ues % 2 ^ 32)

-- the color buffer before its entries are written
unfoldable pub allocated : ℕ → ℕ → ColorBuf
allocated junk num_ues = record {
  num_ues = num_ues;
  buf_state = replicate (size_buf num_ues / 8) junk;
  buf = replicate (size_buf num_ues / 8) junk;
  from = replicate (size_from num_ues) junk;
}

-- `ssmp_color_buf_init_platf` of process `id` among `num_ues`; `none` is a NULL `cbuf`, and `junk`
-- what fresh memory holds.
unfoldable pub color_buf_init :
    Malloc → ℕ → (id num_ues : ℕ) → Option ColorBuf → (ℕ → ℕ) → Outcome (Option ColorBuf)
color_buf_init malloc junk id num_ues none color = done none
color_buf_init malloc junk id num_ues (some _) color = do
  need malloc 0 (num_ues * 4)
  let participants = marks color id num_ues 0
  let n = count_marks participants 0
  need malloc 1 (size_buf n)
  need malloc 2 (size_buf n)
  need malloc 3 (size_from n)
  done (some (fill participants 0 0 (allocated junk n)))
