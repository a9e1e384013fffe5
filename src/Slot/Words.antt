-- ===== src/Slot/Words.antt =====
-- The word with the state: what a load of it sees, and what is left of it without the state.
use ssmp.Base.{ℕ, ◌+◌, ◌*◌, ◌/◌, ◌^◌, ◌<◌, ◌≡◌, ◌≢◌, arith, if◌then◌else◌, ◌==◌}

-- a word with another lowest byte
abbrev pub with_state : (v w : ℕ) → ℕ
with_state v w = w / 2 ^ 8 * 2 ^ 8 + v

-- What a load of word `k` of `d` gives when the state is `v` and the memory otherwise has `w` there.
abbrev pub seen_word : (d v k w : ℕ) → ℕ
seen_word d v k w = if k + 1 == d then with_state v w else w

-- word `k` without the state
abbrev pub plain_word : (d k w : ℕ) → ℕ
plain_word d k w = if k + 1 == d then w / 2 ^ 8 else w

pub seen_word_plain : (d v k w : ℕ) → k + 1 ≢ d → seen_word d v k w ≡ w
seen_word_plain d v k w ne = ground (arith, ne)

pub seen_word_last : (d v k w : ℕ) → k + 1 ≡ d → seen_word d v k w ≡ with_state v w
seen_word_last d v k w e = ground (arith, e)

-- The state that a load sees does not matter for the rest of the word.
pub plain_word-seen_word :
    (d v k w : ℕ) → v < 2 ^ 8 → plain_word d k (seen_word d v k w) ≡ plain_word d k w
plain_word-seen_word d v k w small = ground (arith, small)
