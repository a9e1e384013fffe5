-- ===== src/Tile/Delivery.antt =====
-- What the operations of src/platform/tilera/ssmp_platf.c deliver.
use ssmp.Base.{ℕ, suc, ◌<◌, ◌≤◌, ◌≡◌, refl, List, [], ◌∷◌, ◌++◌, ap, ◌∙◌, true}
use ssmp.Base.Outcome.{done}
use ssmp.Poll.{Env}
use ssmp.Poll.Await.{await_now}
use ssmp.Tile.Udn.{TileMsg, Udn, Delivers, OnlyAdds}
use ssmp.Tile.Port.{receive, recv_from, recv, send}
use ssmp.Tile.Boot.{Tmc, tile_mem_init, header_of, tile_mem_init_lem}

module _ {N : Type 0} (u : Udn N) (d : Delivers u) where
  module _ (here : ℕ) (env : Env N) (keeps : OnlyAdds u here env) (fuel : ℕ) where
    receive_first :
        (n : N) (m : TileMsg) (ms : List TileMsg)
        → u.queue n here ≡ m ∷ ms
        → (n' : N) × (more : List TileMsg) × (receive u here env (suc fuel) n ≡ done (m, n'))
          × (u.queue n' here ≡ ms ++ more)
    unfolding receive
    receive_first n m ms e =
        let (more, e') = keeps 0 n in
        let (n', got, rest, others) =
          d.receives here m (ms ++ more) (env 0 n) (e' ∙ ap (λ q. q ++ more) e) in
        (n', more, await_now env (u.receive_buffer here) fuel 0 n (m, n') got, rest)

  -- On a network that delivers in order, for at most 48 processes, two of them `id` and `to`: after
  -- `ssmp_mem_init` of the first, a message that it sends to the other while none is there, and
  -- no other process takes messages of that tile, is what `ssmp_recv` of the other returns, with
  -- `id` as its sender and the words that were sent.
  pub recv-send_tile :
      (t : Tmc) (death num_ues id to fuel : ℕ) (env : Env N) (msg : TileMsg) (n : N)
      → num_ues ≤ 48
      → t.udn_activate ≡ true
      → t.memalign ≡ true
      → to < num_ues
      → OnlyAdds u (header_of t to) env
      → u.queue n (header_of t to) ≡ []
      → (headers : List ℕ) × (msg' : TileMsg) × (n' n'' : N) × (tile_mem_init t death num_ues
          ≡ done headers)
        × (send u id headers to msg n ≡ done (msg', n'))
        × (recv u (header_of t to) env (suc fuel) n' ≡ done (msg', n''))
        × (msg' ≡ record msg { sender = id })
  unfolding send recv
  recv-send_tile t death num_ues id to fuel env msg n le active space lt keeps empty =
      let (headers, ret, at) = tile_mem_init_lem t death num_ues le active space in
      let msg' : TileMsg = record msg { sender = id } in
      let here : ℕ = header_of t to in
      let n' : N = u.send_buffer here msg' n in
      let queued : u.queue n' here ≡ msg' ∷ [] =
        d.sends here msg' n ∙ ap (λ q. q ++ (msg' ∷ [])) empty in
      let (n'', more, got, rest) = receive_first here env keeps fuel n' msg' [] queued in
      (headers, msg', n', n'', ret, rw (at to lt, send) refl, got, refl)

  -- On a network that delivers in order, for at most 48 processes: if process `a` and then process `b`
  -- send to process `to`, for which no message waits and from which no other process takes messages,
  -- then its call `ssmp_recv_from(b)` returns the message of `a`, with `a` as its sender, and a call
  -- `ssmp_recv_from(a)` after it the one of `b`.
  pub recv_from_swapped :
      (t : Tmc) (death num_ues a b to fuel : ℕ) (env : Env N) (ma mb : TileMsg) (n : N)
      → num_ues ≤ 48
      → t.udn_activate ≡ true
      → t.memalign ≡ true
      → to < num_ues
      → OnlyAdds u (header_of t to) env
      → u.queue n (header_of t to) ≡ []
      → (headers : List ℕ) × (n₁ n₂ n₃ n₄ : N) × (tile_mem_init t death num_ues ≡ done headers)
        × (send u a headers to ma n ≡ done (record ma { sender = a }, n₁))
        × (send u b headers to mb n₁ ≡ done (record mb { sender = b }, n₂))
        × (recv_from u (header_of t to) env (suc fuel) b n₂ ≡ done (record ma { sender = a }, n₃))
        × (recv_from u (header_of t to) env (suc fuel) a n₃ ≡ done (record mb { sender = b }, n₄))
  unfolding send recv_from
  recv_from_swapped t death num_ues a b to fuel env ma mb n le active space lt keeps empty =
      let (headers, ret, at) = tile_mem_init_lem t death num_ues le active space in
      let here : ℕ = header_of t to in
      let first : TileMsg = record ma { sender = a } in
      let second : TileMsg = record mb { sender = b } in
      let n₁ : N = u.send_buffer here first n in
      let n₂ : N = u.send_buffer here second n₁ in
      let one_waits : u.queue n₁ here ≡ first ∷ [] =
        d.sends here first n ∙ ap (λ q. q ++ (first ∷ [])) empty in
      let two_wait : u.queue n₂ here ≡ first ∷ second ∷ [] =
        d.sends here second n₁ ∙ ap (λ q. q ++ (second ∷ [])) one_waits in
      let (n₃, more, got, rest) =
        receive_first here env keeps fuel n₂ first (second ∷ []) two_wait in
      let (n₄, more', got', rest') = receive_first here env keeps fuel n₃ second more rest in
      (headers, n₁, n₂, n₃, n₄, ret, rw (at to lt, send) refl, rw (at to lt, send) refl, got, got')
