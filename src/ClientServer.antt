-- ===== src/ClientServer.antt =====
-- benchmarks/client_server.c: clients that send to the servers in turn, and servers that end when every
-- client has sent its last message to them.
pub mod Heard
pub mod Client
pub mod Server
pub mod Delivery
mod Tests
use ssmp.Base.{
  ℕ, zero, suc, ◌+◌, ◌-◌, ◌^◌, Bool, true, false, not, ◌&&◌, List, [], ◌∷◌, Option, none, some,
  get_elem?, if◌then◌else◌, ◌==◌, ltb,
}
use ssmp.Base.Outcome.{Outcome, done, fault, spinning, ◌>>=◌}
use ssmp.Bank.{u32}

-- A message of a client: to whom it goes, its w0, and whether the client complains about the w0 that it
-- finds in the message afterwards.
pub record Sent : Type 0 where
  pub to : ℕ
  pub w0 : ℕ
  pub complains : Bool

-- `msg->w0 == num_msgs1` for the pattern of the signed w0 and a `num_msgs1` that is not negative
unfoldable pub equals : (w0 num_msgs1 : ℕ) → Bool
equals w0 n = ltb w0 (2 ^ 31) && (w0 == n)

-- The loop of a client with `num_msgs1` messages to go. `after` is the w0 that the message has after the
-- send, or after the reply with ROUNDTRIP.
unfoldable pub client_loop :
    (after : ℕ → ℕ) (dsl_seq : List ℕ) (num_dsl num_msgs1 to to_idx : ℕ) → Outcome (List Sent)
unfolding equals
client_loop after seq num_dsl zero to to_idx = done []
client_loop after seq num_dsl (suc n) to to_idx = elim (get_elem? seq to_idx) [
  | none ↦ fault
  | some next ↦ do
    rest ←
        client_loop after seq num_dsl n next
          (if u32 (to_idx + 1) == num_dsl then 0 else u32 (to_idx + 1))
    done (record { to = to; w0 = u32 n; complains = not (equals (after (u32 n)) n) } ∷ rest)
]

-- a client after the barrier
unfoldable pub client :
    (after : ℕ → ℕ) (dsl_seq : List ℕ) (num_dsl num_msgs : ℕ) → Outcome (List Sent)
unfolding client_loop
client after seq num_dsl num_msgs = client_loop after seq num_dsl num_msgs 0 0

-- The loop of a server over the w0 of the messages as they arrive: how many it has received, and those
-- that arrive after its end.
unfoldable pub server_loop : (lim_zeros num_zeros recved_num : ℕ) → List ℕ → Outcome (ℕ × List ℕ)
server_loop lim num_zeros recved [] = spinning
server_loop lim num_zeros recved (w0 ∷ later) =
    let rest = server_loop lim num_zeros (recved + 1) later in
    let counted = server_loop lim (u32 (num_zeros + 2 ^ 32 - 1)) (recved + 1) later in
    if ltb w0 lim
    then (if u32 (num_zeros + 2 ^ 32 - 1) == 0 then done (recved + 1, later) else counted)
    else rest

-- a server after the barrier
unfoldable pub server : (num_dsl num_app : ℕ) → List ℕ → Outcome (ℕ × List ℕ)
unfolding server_loop
server num_dsl num_app arrivals = server_loop num_dsl num_app 0 arrivals
