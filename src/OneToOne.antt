-- ===== src/OneToOne.antt =====
-- benchmarks/one2one.c, cs.c and one2one_big.c: pairs of a sender and a receiver.
pub mod Pair
pub mod Big
mod Tests
use ssmp.Base.{
  ℕ, zero, suc, ◌+◌, ◌-◌, ◌*◌, ◌%◌, ◌^◌, Bool, true, false, not, List, [], ◌∷◌, length, replicate,
  if◌then◌else◌, ◌==◌, ltb,
}
use ssmp.Base.Outcome.{Outcome, done, spinning, ◌>>=◌}

abbrev pub u32 : ℕ → ℕ
u32 n = n % 2 ^ 32

-- a signed 32-bit number, by its pattern, as a 64-bit one
unfoldable pub widen : ℕ → ℕ
widen w = if ltb w (2 ^ 31) then w else w + (2 ^ 64 - 2 ^ 32)

-- What a sender does: the w0 of its messages, and how often it complains about the w0 of a reply.
pub record Sends : Type 0 where
  pub w0s : List ℕ
  pub complaints : ℕ

-- The loop of a sender of one2one.c, from `num_msgs1` on. `after` is the w0 that the message has after the
-- send, or after the reply with ROUNDTRIP. That of cs.c is the same, without replies.
unfoldable pub sender_loop : (after : ℕ → ℕ) (fuel num_msgs num_msgs1 : ℕ) → Outcome Sends
sender_loop after zero num_msgs i = spinning
sender_loop after (suc fuel) num_msgs i =
    let rest = sender_loop after fuel num_msgs (u32 (i + 1)) in
    let wrong = if after i == i then 0 else 1 in
    if ltb i num_msgs
    then (rest >>= λ r. done (record { w0s = i ∷ r.w0s; complaints = wrong + r.complaints }))
    else done (record { w0s = []; complaints = 0 })

-- What a receiver does: `total_samples`, how often it complains, and what comes after its end.
pub record Receives : Type 0 where
  pub total_samples : ℕ
  pub complaints : ℕ
  pub later : List ℕ

-- The loop of a receiver of one2one.c over the w0 of the messages as they come. What it counts is computed
-- in 32 bits.
unfoldable pub receiver_loop : (out expected complaints : ℕ) → List ℕ → Outcome Receives
unfolding widen
receiver_loop out expected complaints [] = spinning
receiver_loop out expected complaints (w0 ∷ later) =
    let rest =
      receiver_loop out (u32 (expected + 1)) (if w0 == expected then complaints else complaints + 1)
        later in
    if w0 == out
    then done
        (record { total_samples = widen (u32 (w0 + 1)); complaints = complaints; later = later })
    else rest

-- `out` is `num_msgs - 1` as an unsigned number.
unfoldable pub receiver : (num_msgs : ℕ) → List ℕ → Outcome Receives
unfolding receiver_loop
receiver num_msgs w0s = receiver_loop (u32 (num_msgs + 2 ^ 32 - 1)) 0 0 w0s

-- the loop of a receiver of cs.c: `total_samples`, computed in 32 bits, and what comes after its end
unfoldable pub cs_receiver_loop : (out : ℕ) → List ℕ → Outcome (ℕ × List ℕ)
unfolding widen
cs_receiver_loop out [] = spinning
cs_receiver_loop out (w0 ∷ later) =
    let rest = cs_receiver_loop out later in
    if w0 == out then done (widen (u32 (2 * u32 (w0 + 1))), later) else rest

unfoldable pub cs_receiver : (num_msgs : ℕ) → List ℕ → Outcome (ℕ × List ℕ)
unfolding cs_receiver_loop
cs_receiver num_msgs w0s = cs_receiver_loop (u32 (num_msgs + 2 ^ 32 - 1)) w0s
