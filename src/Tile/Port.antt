-- ===== src/Tile/Port.antt =====
-- src/platform/tilera/ssmp_platf.c: messages over the user dynamic network. Big messages are not
-- supported: both calls print so and do nothing else.
use ssmp.Base.{ℕ, List, Bool, true, none, some, get_elem?}
use ssmp.Base.Outcome.{Outcome, done, fault}
use ssmp.Poll.{Env, await}
use ssmp.Tile.Udn.{TileMsg, Udn}

-- `here` is the header of the tile that the process runs on.
module _ {N : Type 0} (u : Udn N) (here : ℕ) (env : Env N) (fuel : ℕ) where
  -- `tmc_udn0_receive_buffer`, which waits for a message
  unfoldable pub receive : N → Outcome (TileMsg × N)
  receive n = await env (u.receive_buffer here) fuel 0 n

  -- `ssmp_recv_from_platf`
  unfoldable pub recv_from : (from : ℕ) → N → Outcome (TileMsg × N)
  unfolding receive
  recv_from from n = receive n

  -- `ssmp_recv_platf`
  unfoldable pub recv : N → Outcome (TileMsg × N)
  unfolding receive
  recv n = receive n

  -- `ssmp_recv_color_platf`, which does not read the color buffer
  unfoldable pub recv_color : {C : Type 0} → C → N → Outcome (TileMsg × N)
  unfolding receive
  recv_color cbuf n = receive n

  -- `ssmp_recv_color_start_platf`
  unfoldable pub recv_color_start : {C : Type 0} → C → N → Outcome (TileMsg × N)
  unfolding receive
  recv_color_start cbuf n = receive n

-- `id` is `ssmp_id_`, and `headers` is `udn_header`.
module _ {N : Type 0} (u : Udn N) (id : ℕ) (headers : List ℕ) where
  -- `ssmp_send_platf`: the caller's message, which gets its sender, and the network
  unfoldable pub send : (to : ℕ) → TileMsg → N → Outcome (TileMsg × N)
  send to msg n = elim (get_elem? headers to) [
    | none ↦ fault
    | some h ↦ let msg' = record msg { sender = id } in done (msg', u.send_buffer h msg' n)
  ]

  -- `ssmp_send_no_sync_platf`
  unfoldable pub send_no_sync : (to : ℕ) → TileMsg → N → Outcome (TileMsg × N)
  send_no_sync to msg n = elim (get_elem? headers to) [
    | none ↦ fault
    | some h ↦ let msg' = record msg { sender = id } in done (msg', u.send_buffer h msg' n)
  ]

-- `ssmp_send_is_free_platf`
unfoldable pub send_is_free : (to : ℕ) → Bool
send_is_free to = true
