-- ===== src/ClientServer/Delivery.antt =====
-- The clients and the servers of benchmarks/client_server.c together.
use ssmp.Base.{
  ℕ, zero, suc, ◌+◌, ◌-◌, ◌*◌, ◌^◌, ◌≤◌, ◌<◌, ◌≡◌, ◌⊎◌, inl, inr, arith, refl, sym, ap, subst, ◌∙◌,
  List, [], ◌∷◌, length, if◌then◌else◌, ltb, ℕ_discrete, dec_lt,
}
use ssmp.Base.Family.{sum_below, total, total-zero, total_ext}
use ssmp.Base.Outcome.{done, spinning, done_injective}
use ssmp.Bank.{color_app1, setup}
use ssmp.Bank.Sequence.{SetUp, setup-SetUp}
use ssmp.ClientServer.{Sent, client, server_loop, server}
use ssmp.ClientServer.Heard.{heard, complaints, Ends}
use ssmp.ClientServer.Client.{client_lem, client_short}
use ssmp.ClientServer.Server.{
  Arrival, values, from, smalls, Complete, from_head, from_other, smalls-Ends, smalls_none,
  server_loop_all,
}

module _ (lim : ℕ) where
  abbrev counted : Arrival → ℕ
  counted a = if ltb a.w0 lim then 1 else 0

  smalls_cons :
      (w : ℕ) (ws : List ℕ) → smalls lim (w ∷ ws) ≡ smalls lim ws + (if ltb w lim then 1 else 0)
  unfolding smalls
  smalls_cons w ws = ground arith

  from_here :
      (n : ℕ) (a : Arrival) (xs : List Arrival)
      → a.sender ≡ n
      → smalls lim (from n (a ∷ xs)) ≡ smalls lim (from n xs) + counted a
  from_here n a xs here =
      subst (λ c. smalls lim (from c (a ∷ xs)) ≡ smalls lim (from c xs) + counted a) here
        (ap (smalls lim) (from_head lim a xs) ∙ smalls_cons a.w0 (from a.sender xs))

  -- one more arrival counts for its sender
  one_more :
      (n : ℕ) (a : Arrival) (xs : List Arrival)
      → sum_below n (λ c. smalls lim (from c (a ∷ xs)))
        ≡ sum_below n (λ c. smalls lim (from c xs)) + (if ltb a.sender n then counted a else 0)
  unfolding total
  one_more zero a xs = ground arith
  one_more (suc n) a xs = elim (ℕ_discrete a.sender n) [
    | yes here ↦ ground (arith, one_more n a xs, from_here n a xs here)
    | no elsewhere ↦
        ground (arith, one_more n a xs, ap (smalls lim) (from_other lim a xs n elsewhere))
  ]

  -- Every arrival counts for one process.
  smalls_total :
      (n : ℕ) (xs : List Arrival)
      → ((c : ℕ) → n ≤ c → from c xs ≡ [])
      → sum_below n (λ c. smalls lim (from c xs)) ≡ smalls lim (values xs)
  unfolding from
  smalls_total n [] known =
      total-zero (λ x. x) n (λ c. smalls lim []) (λ i lt. smalls_none lim) ∙ sym (smalls_none lim)
  smalls_total n (a ∷ xs) known =
      let lt : a.sender < n = elim (dec_lt a.sender n) [
        | yes below ↦ below
        | no above ↦
            let impossible : a.w0 ∷ from a.sender xs ≡ [] =
              sym (from_head lim a xs) ∙ known a.sender (omega arith) in
            absurd (cc)
      ] in
      let rest =
        smalls_total n xs (λ c le. sym (from_other lim a xs c (omega arith)) ∙ known c le) in
      ground (arith, one_more n a xs, rest, smalls_cons a.w0 (values xs))

-- Server `d` gets the messages of the clients in any order that keeps those of each client in theirs.
pub record Interleaves (per_core num_procs d : ℕ) (ms : List Sent) (xs : List Arrival)
    : Type 0 where
  pub of_clients : (c : ℕ) → c < num_procs → color_app1 per_core c ≡ 1 → from c xs ≡ heard d ms
  pub of_servers : (c : ℕ) → c < num_procs → color_app1 per_core c ≡ 0 → from c xs ≡ []
  pub of_nobody : (c : ℕ) → num_procs ≤ c → from c xs ≡ []

app-cases : (per_core c : ℕ) → (color_app1 per_core c ≡ 1) ⊎ (color_app1 per_core c ≡ 0)
unfolding color_app1
app-cases per_core c = ground arith

silent : (xs : List Arrival) → ((c : ℕ) → from c xs ≡ []) → xs ≡ []
silent [] none = refl
silent (a ∷ xs) none =
    let impossible : a.w0 ∷ from a.sender xs ≡ [] = sym (from_head 0 a xs) ∙ none a.sender in
    absurd (cc)

unheard :
    {per_core num_procs : ℕ} (d : ℕ) (ms : List Sent) (xs : List Arrival)
    → Interleaves per_core num_procs d ms xs
    → heard d ms ≡ []
    → xs ≡ []
unheard {per_core} {num_procs} d ms xs mixed nothing = silent xs (λ c. elim (dec_lt c num_procs) [
  | no above ↦ mixed.of_nobody c (omega arith)
  | yes below ↦ elim (app-cases per_core c) [
    | inl app ↦ mixed.of_clients c below app ∙ nothing
    | inr dsl ↦ mixed.of_servers c below dsl
  ]
])

module _ (per_core num_procs : ℕ) (pos : 0 < per_core) (small : num_procs < 256) where
  abbrev num_dsl : ℕ
  num_dsl = (setup per_core num_procs).num_dsl

  abbrev num_app : ℕ
  num_app = (setup per_core num_procs).num_app

  abbrev seq : List ℕ
  seq = (setup per_core num_procs).dsl_seq

  abbrev up : SetUp per_core num_procs (setup per_core num_procs)
  up = setup-SetUp per_core pos num_procs small

  module _ (d : ℕ) (ms : List Sent) (xs : List Arrival)
      (mixed : Interleaves per_core num_procs d ms xs) (ends : Ends num_dsl (heard d ms)) where
    mixed-Complete : Complete num_dsl xs
    unfolding Complete
    mixed-Complete c = elim (dec_lt c num_procs) [
      | no above ↦ inl (mixed.of_nobody c (omega arith))
      | yes below ↦ elim (app-cases per_core c) [
        | inl app ↦ inr (subst (Ends num_dsl) (sym (mixed.of_clients c below app)) ends)
        | inr dsl ↦ inl (mixed.of_servers c below dsl)
      ]
    ]

    one_each : (c : ℕ) → c < num_procs → smalls num_dsl (from c xs) ≡ color_app1 per_core c
    one_each c below = elim (app-cases per_core c) [
      | inl app ↦
          ap (smalls num_dsl) (mixed.of_clients c below app)
          ∙ smalls-Ends num_dsl (heard d ms) ends
          ∙ sym app
      | inr dsl ↦ ap (smalls num_dsl) (mixed.of_servers c below dsl) ∙ smalls_none num_dsl ∙ sym dsl
    ]

    mixed_smalls : smalls num_dsl (values xs) ≡ num_app
    mixed_smalls =
        sym (smalls_total num_dsl num_procs xs mixed.of_nobody)
        ∙ total_ext num_procs (λ c. smalls num_dsl (from c xs)) (color_app1 per_core) one_each
        ∙ sym up.clients

    mixed_served : 0 < num_app → server num_dsl num_app (values xs) ≡ done (length xs, [])
    unfolding server
    mixed_served some_app =
        server_loop_all num_dsl num_app 0 xs mixed-Complete mixed_smalls some_app
          (omega (arith, up.all, small))
        ∙ ap (λ n. done (n, [])) (omega arith)

  module _ (after : ℕ → ℕ) (same : (w : ℕ) → after w ≡ w) (num_msgs s : ℕ)
      (fits : num_msgs ≤ 2 ^ 31) (is_dsl : s < num_dsl) where
    -- For fewer than 256 processes and a `dsl_per_core` that is not 0, if each client has more messages
    -- to send than there are servers, and at most 2^31, and the w0 of a message is after the send, or
    -- after the reply, what it was: a client sends all its messages and never complains, and a server
    -- to which the messages of the clients, of which there is one at least, come in any order that keeps
    -- the order of each client receives all of them and ends with the last.
    pub server-client :
        (ms : List Sent) (xs : List Arrival)
        → num_dsl < num_msgs
        → 0 < num_app
        → client after seq num_dsl num_msgs ≡ done ms
        → Interleaves per_core num_procs (s * per_core) ms xs
        → (length ms ≡ num_msgs)
          × (complaints ms ≡ 0)
          × (server num_dsl num_app (values xs) ≡ done (length xs, []))
    server-client ms xs many some_app ran mixed =
        let (ms', run, count, quiet, ends) =
          client_lem per_core num_dsl seq pos (omega (arith, up.all)) up.servers after same num_msgs
            s many fits is_dsl in
        let same_ms : ms' ≡ ms = done_injective (sym run ∙ ran) in
        (
          ap length (sym same_ms) ∙ count,
          ap complaints (sym same_ms) ∙ quiet,
          mixed_served (s * per_core) ms xs mixed
              (subst (λ l. Ends num_dsl (heard (s * per_core) l)) same_ms ends) some_app,
        )

  module _ (after : ℕ → ℕ) (same : (w : ℕ) → after w ≡ w) (num_msgs : ℕ) where
    -- For fewer than 256 processes and a `dsl_per_core` that is not 0: if there are two servers or more
    -- and the clients have no more messages to send than there are servers, the last server waits for
    -- ever, in every order in which the messages come.
    pub server_starves :
        (ms : List Sent) (xs : List Arrival)
        → num_msgs ≤ num_dsl
        → 1 < num_dsl
        → client after seq num_dsl num_msgs ≡ done ms
        → Interleaves per_core num_procs ((num_dsl - 1) * per_core) ms xs
        → server num_dsl num_app (values xs) ≡ spinning
    unfolding server server_loop
    server_starves ms xs few two ran mixed =
        let (ms', run, nothing) =
          client_short per_core num_dsl seq pos (omega (arith, up.all)) up.servers after same
            num_msgs few two in
        let none_sent : heard ((num_dsl - 1) * per_core) ms ≡ [] =
          ap (heard ((num_dsl - 1) * per_core)) (done_injective (sym ran ∙ run)) ∙ nothing in
        let none_come : xs ≡ [] = unheard ((num_dsl - 1) * per_core) ms xs mixed none_sent in
        ap (λ ys. server num_dsl num_app (values ys)) none_come
