-- ===== src/ClientServer/Tests.antt =====
-- Two servers, 0 and 2, and two clients, 1 and 3.
use ssmp.Base.{ℕ, zero, suc, ◌*◌, ◌<◌, ◌≡◌, refl, arith, false, List, [], ◌∷◌, length}
use ssmp.Base.Outcome.{done, spinning}
use ssmp.Bank.{color_app1, color_dsl, setup, setup_loop, setup_round}
use ssmp.ClientServer.{Sent, client, client_loop, equals, server, server_loop}
use ssmp.ClientServer.Heard.{heard, complaints}
use ssmp.ClientServer.Server.{Arrival, values, from}
use ssmp.ClientServer.Delivery.{Interleaves, server-client, server_starves}

abbrev message : (to w0 : ℕ) → Sent
message to w0 = record { to = to; w0 = w0; complains = false }

-- what a client sends that has five messages
abbrev five_messages : List Sent
five_messages = message 0 4 ∷ message 0 3 ∷ message 2 2 ∷ message 0 1 ∷ message 2 0 ∷ []

abbrev arrival : (sender w0 : ℕ) → Arrival
arrival sender w0 = record { sender = sender; w0 = w0 }

-- how they come to server 0
abbrev at_server : List Arrival
at_server = arrival 3 4 ∷ arrival 1 4 ∷ arrival 1 3 ∷ arrival 1 1 ∷ arrival 3 3 ∷ arrival 3 1 ∷ []

client_run : client (λ w. w) (setup 2 4).dsl_seq (setup 2 4).num_dsl 5 ≡ done five_messages
unfolding client client_loop equals setup setup_loop setup_round color_dsl
client_run = refl

server_run : server 2 2 (values at_server) ≡ done (6, [])
unfolding server server_loop
server_run = refl

at_server-Interleaves : Interleaves 2 4 (0 * 2) five_messages at_server
unfolding heard from color_app1 color_dsl
at_server-Interleaves = record {
  of_clients = clients;
  of_servers = servers;
  of_nobody = λ c le. ground arith;
}
  where
    clients : (c : ℕ) → c < 4 → color_app1 2 c ≡ 1 → from c at_server ≡ heard (0 * 2) five_messages
    clients zero lt app = absurd (cc)
    clients (suc zero) lt app = refl
    clients (suc (suc zero)) lt app = absurd (cc)
    clients (suc (suc (suc zero))) lt app = refl
    clients (suc (suc (suc (suc c)))) lt app = absurd (omega arith)

    servers : (c : ℕ) → c < 4 → color_app1 2 c ≡ 0 → from c at_server ≡ []
    servers zero lt dsl = refl
    servers (suc zero) lt dsl = absurd (cc)
    servers (suc (suc zero)) lt dsl = refl
    servers (suc (suc (suc zero))) lt dsl = absurd (cc)
    servers (suc (suc (suc (suc c)))) lt dsl = absurd (omega arith)

server-client_example :
    (length five_messages ≡ 5)
    × (complaints five_messages ≡ 0)
    × (server 2 2 (values at_server) ≡ done (6, []))
unfolding setup setup_loop setup_round color_dsl
server-client_example =
    server-client 2 4 (omega arith) (omega arith) (λ w. w) (λ w. refl) 5 0 (omega arith)
      (omega arith) five_messages at_server (omega arith) (omega arith) client_run
      at_server-Interleaves

-- With two messages the second server hears nothing.
abbrev two_messages : List Sent
two_messages = message 0 1 ∷ message 0 0 ∷ []

short_run : client (λ w. w) (setup 2 4).dsl_seq (setup 2 4).num_dsl 2 ≡ done two_messages
unfolding client client_loop equals setup setup_loop setup_round color_dsl
short_run = refl

nothing-Interleaves : Interleaves 2 4 2 two_messages []
unfolding heard from
nothing-Interleaves = record {
  of_clients = λ c lt app. refl;
  of_servers = λ c lt dsl. refl;
  of_nobody = λ c le. refl;
}

server_starves_example : server 2 2 [] ≡ spinning
unfolding setup setup_loop setup_round color_dsl
server_starves_example =
    server_starves 2 4 (omega arith) (omega arith) (λ w. w) (λ w. refl) 2 two_messages []
      (omega arith) (omega arith) short_run nothing-Interleaves
