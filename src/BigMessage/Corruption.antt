-- ===== src/BigMessage/Corruption.antt =====
-- Which bytes of a big message arrive.
use native.Mathlib.Nat.{mod-eq-sub-mod, mod-lt, mod-eq_of_lt, div-add-mod', suc-mul}
use ssmp.Base.{
  ℕ, zero, suc, ◌+◌, ◌-◌, ◌*◌, ◌/◌, ◌%◌, ◌<◌, ◌≤◌, ◌≡◌, ◌≢◌, List, [], ◌∷◌, ◌++◌, get_or, set, take,
  drop, replicate, length, length-append, length-take, length-drop, length-set, set_beyond,
  take_all, get_or-append, get_or-take, get_or-drop, get_or-set, if◌then◌else◌, ◌==◌, arith, ap,
  ◌∙◌, dec_lt, append-nil, sym, get_or_ext,
}
use ssmp.Base.Outcome.{done}
use ssmp.BigMessage.{sizes, transfer}
use ssmp.BigMessage.Lockstep.{received, IsFree, Fits, rounds_lem}

abbrev tail_size : ℕ → List ℕ
tail_size r = if r == 0 then [] else r ∷ []

-- What arrives of byte `i` of a message.
abbrev pub arriving : ℕ → List ℕ → ℕ → ℕ
arriving c message i = if i % c == c - 1 then 1 else get_or message i 0

module _ (c : ℕ) (pos : 0 < c) (r : ℕ) (small : r < c) where
  Fits-sizes : (q len : ℕ) → len ≡ q * c + r → Fits c (replicate q c ++ tail_size r) len
  Fits-sizes zero len e = ground arith
  Fits-sizes (suc q) len e =
      let whole : len ≡ q * c + c + r = omega (arith, suc-mul q c) in
      (omega arith, omega arith, Fits-sizes q (len - c) (omega arith))

  received_tail :
      (message : List ℕ) → length message ≡ r → received c (tail_size r) message ≡ message
  unfolding received
  received_tail [] e = ground arith
  received_tail (x ∷ xs) e =
      ground (arith, take_all r (x ∷ xs), set_beyond (x ∷ xs) (c - 1) 1, append-nil (x ∷ xs))

  module _ (q : ℕ) (message : List ℕ) (e : length message ≡ suc q * c + r) where
    whole : length message ≡ c + (q * c + r)
    whole = omega (arith, suc-mul q c)

    abbrev front : List ℕ
    front = set (take c message) (c - 1) 1

    length-front : length front ≡ c
    length-front =
        omega (arith, whole, length-set (take c message) (c - 1) 1, length-take c message)

    length-rest : length (drop c message) ≡ q * c + r
    length-rest = omega (arith, whole, length-drop c message)

    at_front : (i : ℕ) → i < c → get_or front i 0 ≡ arriving c message i
    at_front i lt = ground (
      arith,
      get_or-set (take c message) (c - 1) i 1 0,
      length-take c message,
      whole,
      get_or-take c message i 0,
      mod-eq_of_lt {n = i} {m = c},
    )

    at_rest : (i : ℕ) → c ≤ i → arriving c (drop c message) (i - c) ≡ arriving c message i
    at_rest i le =
        let same : c + (i - c) ≡ i = omega arith in
        ground (
          arith,
          mod-eq-sub-mod {n = i} {m = c},
          get_or-drop c message (i - c) 0,
          ap (λ k. get_or message k 0) same,
        )

  length-received :
      (q : ℕ) (message : List ℕ)
      → length message ≡ q * c + r
      → length (received c (replicate q c ++ tail_size r) message) ≡ length message
  unfolding received
  length-received zero message e = ap length (received_tail message (omega arith))
  length-received (suc q) message e = omega (
    arith,
    length-append (front q message e) (received c (replicate q c ++ tail_size r) (drop c message)),
    length-front q message e,
    length-received q (drop c message) (length-rest q message e),
    length-rest q message e,
    whole q message e,
  )

  received_at :
      (q : ℕ) (message : List ℕ) (i : ℕ)
      → length message ≡ q * c + r
      → i < length message
      → get_or (received c (replicate q c ++ tail_size r) message) i 0 ≡ arriving c message i
  unfolding received
  received_at zero message i e lt =
      rw (received_tail message (omega arith)) (ground (arith, mod-eq_of_lt {n = i} {m = c}))
  received_at (suc q) message i e lt = elim (dec_lt i c) [
    | yes below ↦ ground (
      arith,
      get_or-append (front q message e) (received c (replicate q c ++ tail_size r) (drop c message))
          i 0,
      length-front q message e,
      at_front q message e i below,
    )
    | no above ↦ ground (
      arith,
      get_or-append (front q message e) (received c (replicate q c ++ tail_size r) (drop c message))
          i 0,
      length-front q message e,
      length-rest q message e,
      whole q message e,
      received_at q (drop c message) (i - c),
      at_rest q message e i,
    )
  ]

-- the blocks of a message as they arrive
pub received_sizes :
    (c : ℕ)
    → 0 < c
    → (message : List ℕ)
    → Fits c (sizes c (length message)) (length message)
      × (length (received c (sizes c (length message)) message) ≡ length message)
      × ((i : ℕ)
          → i < length message
          → get_or (received c (sizes c (length message)) message) i 0 ≡ arriving c message i)
unfolding sizes
received_sizes c pos message =
    let q : ℕ = length message / c in
    let r : ℕ = length message % c in
    let small : r < c = mod-lt (length message) pos in
    let e : length message ≡ q * c + r = omega (arith, div-add-mod' (length message) c) in
    (
      Fits-sizes c pos r small q (length message) e,
      length-received c pos r small q message e,
      λ i lt. received_at c pos r small q message i e lt,
    )

module _ (c : ℕ) (pos : 0 < c) (chunk message : List ℕ) (f : IsFree c chunk) where
  -- For chunks of `c` > 0 bytes, if the sender's chunk is free and the two calls take turns, both
  -- calls return, the chunk is free again and as many bytes arrive as were sent; of each whole
  -- chunk the last byte arrives as 1, whatever was sent, since `state` stands in its place, and
  -- all other bytes arrive as they were.
  pub transfer_lem :
      (got last : List ℕ) × (transfer c chunk message ≡ done (got, last))
      × IsFree c last
      × (length got ≡ length message)
      × ((i : ℕ) → i < length message → get_or got i 0 ≡ arriving c message i)
  unfolding transfer
  transfer_lem =
      let (fits, len, at) = received_sizes c pos message in
      let (last, ret, free) = rounds_lem c pos (sizes c (length message)) chunk message f fits in
      (received c (sizes c (length message)) message, last, ret, free, len, at)

  -- So a message shorter than a chunk arrives as it was sent.
  pub transfer_short :
      length message < c
      → (last : List ℕ) × (transfer c chunk message ≡ done (message, last)) × IsFree c last
  transfer_short short =
      let (got, last, ret, free, len, at) = transfer_lem in
      let same : got ≡ message =
        get_or_ext 0 got message len (λ i lt. ground (arith, at i, mod-eq_of_lt {n = i} {m = c})) in
      (last, ret ∙ ap (λ g. done (g, last)) same, free)

  -- For chunks of `c` > 0 bytes, if the sender's chunk is free, the two calls take turns and the
  -- message has a byte other than 1 at an index that is c - 1 modulo `c`, then both calls return
  -- and what arrives is not what was sent.
  pub transfer_corrupts :
      (i : ℕ)
      → i < length message
      → i % c ≡ c - 1
      → get_or message i 0 ≢ 1
      → (got last : List ℕ) × (transfer c chunk message ≡ done (got, last)) × (got ≢ message)
  transfer_corrupts i lt e ne =
      let (got, last, ret, free, len, at) = transfer_lem in
      (got, last, ret, λ same. ne (sym (ap (λ g. get_or g i 0) same) ∙ ground (arith, at i)))
