-- ===== src/Helpers/Random.antt =====
-- `xorshf96` of src/include/ssmp.h, which is also called `my_random`.
use Prim.Native.Nat.{bit_xor}
use ssmp.Base.{ℕ, ◌*◌, ◌/◌, ◌%◌, ◌^◌}

-- the three numbers that the generator keeps, of 64 bits each
pub record Seeds : Type 0 where
  pub x : ℕ
  pub y : ℕ
  pub z : ℕ

-- `v ^= v << s`
abbrev pub xor_left : (s v : ℕ) → ℕ
xor_left s v = bit_xor v (v * 2 ^ s % 2 ^ 64)

-- `v ^= v >> s`
abbrev pub xor_right : (s v : ℕ) → ℕ
xor_right s v = bit_xor v (v / 2 ^ s)

-- `xorshf96`: what it leaves in its three arguments; it returns the last of them.
unfoldable pub xorshf96 : Seeds → Seeds
xorshf96 s =
    let t = xor_left 1 (xor_right 5 (xor_left 16 s.x)) in
    record { x = s.y; y = s.z; z = bit_xor (bit_xor t s.y) s.z }
