-- ===== src/Tile/Tests.antt =====
-- The barriers of Tilera for the processes that are no multiples of 3, and messages on a network that
-- is a queue for each tile.
use ssmp.Base.{
  ℕ, ◌≤◌, ◌+◌, ◌≡◌, refl, arith, sym, append-nil, Option, some, none, List, [], ◌∷◌, ◌++◌, true, ap,
}
use ssmp.Base.Family.{update, update_self, update_ne}
use ssmp.Base.Int.{pos}
use ssmp.Base.Outcome.{fault, done}
use ssmp.Barrier.{color_app}
use ssmp.Poll.{Env}
use ssmp.Tile.Udn.{TileMsg, Udn, Delivers, OnlyAdds}
use ssmp.Tile.Port.{recv_from, recv, send}
use ssmp.Tile.Boot.{Tmc, tile_mem_init, header_of}
use ssmp.Tile.Delivery.{recv_from_swapped, recv-send_tile}
use ssmp.Tile.{barrier_init}

-- a NULL color function is called
null_color : barrier_init (pos 3) none 6 [] ≡ fault
unfolding barrier_init
null_color = refl

color_app_binary : (i : ℕ) → color_app i ≤ 1
unfolding color_app
color_app_binary i = ground arith

abbrev Queues : Type 0
Queues = ℕ → List TileMsg

abbrev pop : ℕ → Queues → List TileMsg → Option (TileMsg × Queues)
pop h n [] = none
pop h n (m ∷ ms) = some (m, update n h ms)

abbrev queues : Udn Queues
queues = record {
  queue = λ n h. n h;
  send_buffer = λ h m n. update n h (n h ++ (m ∷ []));
  receive_buffer = λ h n. pop h n (n h);
}

queues-Delivers : Delivers queues
queues-Delivers = record {
  sends = λ h m n. update_self n h (n h ++ (m ∷ []));
  sends_elsewhere = λ h k m n ne. update_ne n h k (n h ++ (m ∷ [])) ne;
  receives = λ h m ms n e.
      (update n h ms, ap (pop h n) e, update_self n h ms, λ k ne. update_ne n h k ms ne);
}

abbrev nobody_else : Env Queues
nobody_else t n = n

nobody_else-OnlyAdds : (here : ℕ) → OnlyAdds queues here nobody_else
nobody_else-OnlyAdds here t n = ([], sym (append-nil (n here)))

abbrev from_three : TileMsg
from_three = record { w0 = 1; w1 = 2; w2 = 3; sender = 3 }

abbrev sound_tmc : Tmc
sound_tmc = record {
  udn_init = true;
  cmem_calloc = true;
  cpus_count = 64;
  udn_activate = true;
  memalign = true;
  find_nth_cpu = λ n. n;
  header_from_cpu = λ c. 100 + c;
}

abbrev none_wait : Queues
none_wait h = []

recv-send_tile_example :
    (headers : List ℕ) × (msg' : TileMsg) × (n' n'' : Queues) × (tile_mem_init sound_tmc 1 4
      ≡ done headers)
    × (send queues 2 headers 3 from_three none_wait ≡ done (msg', n'))
    × (recv queues (header_of sound_tmc 3) nobody_else 1 n' ≡ done (msg', n''))
    × (msg' ≡ record from_three { sender = 2 })
recv-send_tile_example =
    recv-send_tile queues queues-Delivers sound_tmc 1 4 2 3 0 nobody_else from_three none_wait
      (omega arith) refl refl (omega arith) (nobody_else-OnlyAdds 103) refl

recv_from_swapped_example :
    (headers : List ℕ) × (n₁ n₂ n₃ n₄ : Queues) × (tile_mem_init sound_tmc 1 4 ≡ done headers)
    × (send queues 2 headers 3 from_three none_wait ≡ done (record from_three { sender = 2 }, n₁))
    × (send queues 1 headers 3 from_three n₁ ≡ done (record from_three { sender = 1 }, n₂))
    × (recv_from queues (header_of sound_tmc 3) nobody_else 1 1 n₂
        ≡ done (record from_three { sender = 2 }, n₃))
    × (recv_from queues (header_of sound_tmc 3) nobody_else 1 2 n₃
        ≡ done (record from_three { sender = 1 }, n₄))
recv_from_swapped_example =
    recv_from_swapped queues queues-Delivers sound_tmc 1 4 2 1 3 0 nobody_else from_three from_three
      none_wait (omega arith) refl refl (omega arith) (nobody_else-OnlyAdds 103) refl
