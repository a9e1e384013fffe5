-- ===== src/OneToOne/Big.antt =====
-- The check of benchmarks/one2one_big.c on what it has received.
use ssmp.Base.{
  ℕ, zero, suc, ◌+◌, ◌%◌, ◌^◌, ◌<◌, ◌≡◌, arith, refl, ap, ◌∙◌, Bool, true, List, [], ◌∷◌, length,
  replicate, length-replicate, get_or, get_or_ext, ◌==◌,
}
use ssmp.Base.Outcome.{Outcome, done, ◌>>=◌, >>=_returns}
use ssmp.BigMessage.{transfer}
use ssmp.BigMessage.Lockstep.{IsFree}
use ssmp.BigMessage.Corruption.{transfer_lem}
use ssmp.OneToOne.{u32, widen}

-- `for (i = 0; i < siz_data; i++) data[i] = 1;`
unfoldable pub fill_data : (siz_data : ℕ) → List ℕ
fill_data siz_data = replicate siz_data 1

-- the sum of the bytes of `data`, a `size_t`
unfoldable pub sum_data : List ℕ → ℕ
sum_data [] = 0
sum_data (x ∷ xs) = (x + sum_data xs) % 2 ^ 64

-- What the receiver does with the first message: the announced sum comes in `w1` of a message before it,
-- the data in chunks of `c` bytes. The result says whether the sums agree.
unfoldable pub first_message : (c : ℕ) → (chunk : List ℕ) (siz_data : ℕ) → Outcome Bool
unfolding fill_data sum_data widen
first_message c chunk siz_data = do
  (data_got, emptied) ← transfer c chunk (fill_data siz_data)
  done (sum_data data_got == widen (u32 siz_data))

abbrev ones : ℕ → List ℕ
ones n = replicate n 1

ones_at : (n i : ℕ) → i < n → get_or (ones n) i 0 ≡ 1
ones_at zero i lt = absurd (omega arith)
ones_at (suc n) zero lt = refl
ones_at (suc n) (suc i) lt = ones_at n i (omega arith)

sum_ones : (n : ℕ) → n < 2 ^ 31 → sum_data (ones n) ≡ n
unfolding sum_data
sum_ones zero lt = refl
sum_ones (suc n) lt = omega (arith, sum_ones n (omega arith))

widen-u32 : (n : ℕ) → n < 2 ^ 31 → widen (u32 n) ≡ n
unfolding widen
widen-u32 n lt = let same : u32 n ≡ n = omega arith in ground (arith, same)

module _ (c : ℕ) (pos : 0 < c) (chunk : List ℕ) (f : IsFree c chunk) (siz_data : ℕ) where
  ones_arrive : (last : List ℕ) × (transfer c chunk (ones siz_data) ≡ done (ones siz_data, last))
  ones_arrive =
      let (got, last, ret, free, len, at) = transfer_lem c pos chunk (ones siz_data) f in
      let same : got ≡ ones siz_data = get_or_ext 0 got (ones siz_data) len (λ i lt.
        let inside : i < siz_data = omega (arith, lt, len, length-replicate {A = ℕ} siz_data 1) in
        let inside' : i < length (ones siz_data) = omega (arith, lt, len) in
        ground (arith, at i inside', ones_at siz_data i inside)) in
      (last, ret ∙ ap (λ g. done (g, last)) same)

  -- For chunks of `c` > 0 bytes, if the sender's chunk is free, the two calls take turns and the data have
  -- fewer than 2^31 bytes, the check of one2one_big.c finds the sum that was announced: the bytes that
  -- the state of the chunk replaces are 1 in its data, as the state is, so it does not notice them.
  pub first_message_lem : siz_data < 2 ^ 31 → first_message c chunk siz_data ≡ done true
  unfolding first_message fill_data
  first_message_lem small =
      let (last, ret) = ones_arrive in
      let agree : (sum_data (ones siz_data) == widen (u32 siz_data)) ≡ true =
        ground (arith, sum_ones siz_data small, widen-u32 siz_data small) in
      >>=_returns (transfer c chunk (ones siz_data)) _ ret (ap done agree)
