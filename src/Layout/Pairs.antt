-- ===== src/Layout/Pairs.antt =====
-- The buffer of each pair of processes.
use native.Mathlib.Nat.{
  mul-add-div_right, mul-add-mod_self_right, div-eq_of_lt, mod-eq_of_lt, mul-le-mul_right, suc-mul,
}
use ssmp.Base.{
  ap, sym, ◌∙◌, ℕ, suc, ◌+◌, ◌-◌, ◌*◌, ◌/◌, ◌%◌, ◌<◌, ◌≡◌, ◌≢◌, refl, arith, if◌then◌else◌, ltb,
  some,
}
use ssmp.Layout.{x86_recv_buf, x86_send_buf, sparc_recv_buf, sparc_send_buf}

-- On x86 two different processes `i` and `j` below `n` agree on the buffer from `i` to `j`, which
-- is one of the n - 1 in the memory of `j`, and the buffers that `j` has for other senders are
-- other ones.
pub x86_buffers_agree :
    (n i j : ℕ)
    → i < n
    → j < n
    → i ≢ j
    → (place : ℕ) × (x86_send_buf i j ≡ some (j, place))
      × (x86_recv_buf j i ≡ some (j, place))
      × (place < n - 1)
      × ((k : ℕ) → k < n → k ≢ j → k ≢ i → x86_recv_buf j k ≢ some (j, place))
unfolding x86_send_buf x86_recv_buf
x86_buffers_agree n i j li lj ne = (
  if ltb j i then i - 1 else i,
  ground arith,
  ground arith,
  ground arith,
  λ k lk kj ki. ground arith,
)

row : (n a b : ℕ) → b < n → (a * n + b) / n ≡ a
row n a b lt = omega (arith, mul-add-div_right {m = n} (omega arith) a b, div-eq_of_lt lt)

column : (n a b : ℕ) → b < n → (a * n + b) % n ≡ b
column n a b lt = mul-add-mod_self_right a n b ∙ mod-eq_of_lt lt

-- On SPARC two processes `i` and `j` below `n` agree on the buffer from `i` to `j`, which is one
-- of the n * n in the shared memory, and no other pair of processes below `n` has it.
pub sparc_buffers_agree :
    (n i j : ℕ)
    → i < n
    → j < n
    → (sparc_send_buf n i j ≡ sparc_recv_buf n j i)
      × (sparc_send_buf n i j < n * n)
      × ((k l : ℕ)
          → k < n
          → l < n
          → sparc_send_buf n k l ≡ sparc_send_buf n i j
          → (k ≡ i) × (l ≡ j))
unfolding sparc_send_buf sparc_recv_buf
sparc_buffers_agree n i j li lj = (
  refl,
  omega (arith, mul-le-mul_right {m = suc j} {n = n} n lj, suc-mul j n),
  λ k l lk ll e. (
    sym (column n l k lk) ∙ ap (λ p. p % n) e ∙ column n j i li,
    sym (row n l k lk) ∙ ap (λ p. p / n) e ∙ row n j i li,
  ),
)
