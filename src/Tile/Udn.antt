-- ===== src/Tile/Udn.antt =====
-- The user dynamic network of Tilera, which the TMC library gives to src/arch/tile/ssmp_arch.c and
-- src/platform/tilera/ssmp_platf.c: a queue of messages for each tile.
use ssmp.Poll.{Env}
use ssmp.Base.{ℕ, ◌≡◌, ◌≢◌, List, [], ◌∷◌, ◌++◌, Option, some}

-- `ssmp_msg_t` of src/include/ssmp_tile.h (TILE_SMALL_MSG)
pub record TileMsg : Type 0 where
  pub w0 : ℕ
  pub w1 : ℕ
  pub w2 : ℕ
  pub sender : ℕ

-- Messages on their way to a tile, by its header; `tmc_udn_send_buffer`, and `tmc_udn0_receive_buffer`
-- on a tile, which has nothing to give while no message is there.
pub record Udn (N : Type 0) : Type 0 where
  pub queue : N → ℕ → List TileMsg
  pub send_buffer : ℕ → TileMsg → N → N
  pub receive_buffer : ℕ → N → Option (TileMsg × N)

-- The network delivers to a tile in the order of the sends, and a receive takes the first message.
pub record Delivers {N : Type 0} (u : Udn N) : Type 0 where
  pub sends :
      (h : ℕ) (m : TileMsg) (n : N) → u.queue (u.send_buffer h m n) h ≡ u.queue n h ++ (m ∷ [])
  pub sends_elsewhere :
      (h k : ℕ) (m : TileMsg) (n : N) → h ≢ k → u.queue (u.send_buffer h m n) k ≡ u.queue n k
  pub receives :
      (h : ℕ) (m : TileMsg) (ms : List TileMsg) (n : N)
      → u.queue n h ≡ m ∷ ms
      → (n' : N) × (u.receive_buffer h n ≡ some (m, n'))
        × (u.queue n' h ≡ ms)
        × ((k : ℕ) → h ≢ k → u.queue n' k ≡ u.queue n k)

-- The other processes take no message from the tile, but may send some more to it.
abbrev pub OnlyAdds : {N : Type 0} → Udn N → ℕ → Env N → Type 0
OnlyAdds {N} u here env =
    (t : ℕ) (n : N) → (more : List TileMsg) × (u.queue (env t n) here ≡ u.queue n here ++ more)
