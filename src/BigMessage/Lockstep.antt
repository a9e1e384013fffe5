-- ===== src/BigMessage/Lockstep.antt =====
-- What arrives of a big message when the two calls take turns.
use ssmp.Base.{
  ℕ, ◌-◌, ◌<◌, ◌≤◌, ◌≡◌, refl, List, [], ◌∷◌, ◌++◌, get_or, set, take, drop, length, length-append,
  length-take, length-drop, length-set, take-set, take-append_take, get_or-set, arith, ap, ◌∙◌,
}
use ssmp.Base.Outcome.{done, ◌>>=◌}
use ssmp.BigMessage.{chunk_state, send_block, recv_block, rounds}

-- the blocks as they arrive: the last byte of a whole chunk is its state
unfoldable pub received : ℕ → List ℕ → List ℕ → List ℕ
received c [] todo = []
received c (n ∷ ns) todo = set (take n todo) (c - 1) 1 ++ received c ns (drop n todo)

-- a chunk that no message stands in
pub record IsFree (c : ℕ) (chunk : List ℕ) : Type 0 where
  pub size : length chunk ≡ c
  pub free : chunk_state c chunk ≡ 0

-- the blocks that fit the message
abbrev pub Fits : ℕ → List ℕ → ℕ → Type 0
Fits c [] len = 0 ≤ len
Fits c (n ∷ ns) len = (n ≤ c) × (n ≤ len) × Fits c ns (len - n)

get_or-set_self : (xs : List ℕ) (i v : ℕ) → i < length xs → get_or (set xs i v) i 0 ≡ v
get_or-set_self xs i v lt = ground (arith, get_or-set xs i i v 0)

module _ (c : ℕ) (pos : 0 < c) where
  module _ (n : ℕ) (chunk todo : List ℕ) (f : IsFree c chunk) (le : n ≤ c)
      (enough : n ≤ length todo) where
    abbrev block : List ℕ
    block = take n todo ++ drop n chunk

    pub length-block : length block ≡ c
    length-block = omega (
      arith,
      length-append (take n todo) (drop n chunk),
      length-take n todo,
      length-drop n chunk,
      f.size,
    )

    pub arrives : take n (set block (c - 1) 1) ≡ set (take n todo) (c - 1) 1
    arrives =
        take-set n block (c - 1) 1
        ∙ ap (λ ys. set ys (c - 1) 1) (take-append_take n todo (drop n chunk) enough)

    pub raised : get_or (set block (c - 1) 1) (c - 1) 0 ≡ 1
    raised = get_or-set_self block (c - 1) 1 (omega (arith, length-block))

    pub emptied-IsFree : IsFree c (set (set block (c - 1) 1) (c - 1) 0)
    unfolding chunk_state
    emptied-IsFree = record {
      size = length-set (set block (c - 1) 1) (c - 1) 0 ∙ length-set block (c - 1) 1 ∙ length-block;
      free =
          get_or-set_self (set block (c - 1) 1) (c - 1) 0
            (omega (arith, length-block, length-set block (c - 1) 1));
    }

    pub sends : send_block c n chunk todo ≡ done (set block (c - 1) 1)
    unfolding send_block
    sends = rw f.free

    pub receives :
        recv_block c n (set block (c - 1) 1)
        ≡ done (set (take n todo) (c - 1) 1, set (set block (c - 1) 1) (c - 1) 0)
    unfolding recv_block
    receives = ground (arith, raised, arrives)

  pub rounds_lem :
      (ns chunk todo : List ℕ)
      → IsFree c chunk
      → Fits c ns (length todo)
      → (last : List ℕ) × (rounds c ns chunk todo ≡ done (received c ns todo, last)) × IsFree c last
  unfolding rounds received
  rounds_lem [] chunk todo f fits = (chunk, refl, f)
  rounds_lem (n ∷ ns) chunk todo f fits =
      let (last, ret, free) =
        rounds_lem ns _ (drop n todo) (emptied-IsFree n chunk todo f fits.0 fits.1)
          (rw (length-drop n todo) fits.2) in
      (
        last,
        rw (sends n chunk todo f fits.0 fits.1, receives n chunk todo f fits.0 fits.1, ret, ◌>>=◌),
        free,
      )
