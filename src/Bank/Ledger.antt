-- ===== src/Bank/Ledger.antt =====
-- The balances of a server.
use native.Mathlib.Nat.{mod-eq_of_lt}
use ssmp.Base.{
  ℕ, zero, suc, ◌+◌, ◌-◌, ◌%◌, ◌^◌, ◌≤◌, ◌<◌, ◌≡◌, refl, arith, true, false, List, [], ◌∷◌, none,
  some, inl, inr, get_elem?, set, length, length-set, if◌then◌else◌, ◌==◌, leb, ap, get_elem?-some,
  get_elem?-set_self, get_elem?-set_ne, ℕ_discrete, dec_le, ◌⊎◌,
}
use ssmp.Base.Outcome.{done}
use ssmp.Bank.{Request, Served, serve, signed_le}

unfoldable pub sum : List ℕ → ℕ
sum [] = 0
sum (b ∷ bs) = b + sum bs

sum-set : (bs : List ℕ) (i b v : ℕ) → get_elem? bs i ≡ some b → sum (set bs i v) + b ≡ sum bs + v
unfolding sum
sum-set [] i b v e = absurd (cc)
sum-set (x ∷ xs) zero b v e = ground arith
sum-set (x ∷ xs) (suc i) b v e = omega (arith, sum-set xs i b v e)

-- no balance is negative
abbrev pub IsSolvent : List ℕ → Type 0
IsSolvent accs = (i b : ℕ) → get_elem? accs i ≡ some b → b < 2 ^ 31

IsSolvent-set :
    (accs : List ℕ) (i v : ℕ)
    → i < length accs
    → IsSolvent accs
    → v < 2 ^ 31
    → IsSolvent (set accs i v)
IsSolvent-set accs i v lt solvent small j b e = elim (ℕ_discrete i j) [
  | yes same ↦
      ground (arith, get_elem?-set_self accs i v lt, ap (λ k. get_elem? (set accs i v) k) same)
  | no ne ↦ solvent j b (ground (arith, get_elem?-set_ne accs {i = i} {j = j} v ne))
]

-- what a request puts into the accounts, and what it takes out
abbrev pub paid_in : Request → ℕ
paid_in r = if r.op == 0 then r.amount else 0

abbrev pub paid_out : Request → Served → ℕ
paid_out r s =
    if r.op == 1 then (elim s.reply [ none ↦ 0 | some n ↦ if n == 1 then r.amount else 0 ]) else 0

signed_le-small : (a b : ℕ) → a < 2 ^ 31 → b < 2 ^ 31 → signed_le a b ≡ leb a b
unfolding signed_le
signed_le-small a b la lb = ground arith

kind_of : (r : Request) → (r.op ≡ 0) ⊎ (r.op ≡ 1) ⊎ (r.op ≡ 2) ⊎ (2 < r.op)
kind_of r = omega arith

-- The outcome of each kind of request for an account with balance `b`.
module _ (accs : List ℕ) (r : Request) (b : ℕ) (e : get_elem? accs r.acc ≡ some b) where
  serve_deposit :
      r.op ≡ 0
      → b + r.amount < 2 ^ 31
      → serve accs r
        ≡ done (record { balances = set accs r.acc (b + r.amount); reply = none; stop = false })
  unfolding serve
  serve_deposit op room =
      let wrap : (b + r.amount) % 2 ^ 32 ≡ b + r.amount = mod-eq_of_lt (omega arith) in
      ground (arith, e, op, ap (λ v. set accs r.acc v) wrap)

  module _ (op : r.op ≡ 1) (small : b < 2 ^ 31) (positive : r.amount < 2 ^ 31) where
    serve_withdraw :
        r.amount ≤ b
        → serve accs r
          ≡ done (record { balances = set accs r.acc (b - r.amount); reply = some 1; stop = false })
    unfolding serve
    serve_withdraw enough =
        let wrap : (b + 2 ^ 32 - r.amount) % 2 ^ 32 ≡ b - r.amount = omega arith in
        ground
          (arith, e, op, signed_le-small r.amount b positive small, ap (λ v. set accs r.acc v) wrap)

    serve_refuse :
        b < r.amount
        → serve accs r ≡ done (record { balances = accs; reply = some 0; stop = false })
    unfolding serve
    serve_refuse poor = ground (arith, e, op, signed_le-small r.amount b positive small)

  serve_check :
      r.op ≡ 2 → serve accs r ≡ done (record { balances = accs; reply = some b; stop = false })
  unfolding serve
  serve_check op = ground (arith, e, op)

  serve_exit :
      2 < r.op → serve accs r ≡ done (record { balances = accs; reply = none; stop = true })
  unfolding serve
  serve_exit op = ground (arith, op)

module _ (accs : List ℕ) (r : Request) (solvent : IsSolvent accs) (known : r.acc < length accs)
    (positive : r.op ≤ 1 → r.amount < 2 ^ 31) where
  -- If no balance is negative, a request about an account that exists, whose amount is not
  -- negative if it is a deposit or a withdrawal, and which does not overflow the balance, is served: no balance is negative then, no
  -- account appears or disappears, and the sum of the balances changes by exactly what the
  -- request pays in and what its reply says is paid out. The server ends
  -- exactly if the request is none of the three operations.
  pub serve_lem :
      ((b : ℕ) → get_elem? accs r.acc ≡ some b → b + paid_in r < 2 ^ 31)
      → (s : Served) × (serve accs r ≡ done s)
        × IsSolvent s.balances
        × (length s.balances ≡ length accs)
        × (sum s.balances + paid_out r s ≡ sum accs + paid_in r)
        × (s.stop ≡ leb 3 r.op)
  serve_lem room =
      let (b, e) = get_elem?-some accs r.acc known in
      elim (kind_of r) [
        | inl op ↦ (
          record { balances = set accs r.acc (b + r.amount); reply = none; stop = false },
          serve_deposit accs r b e op (ground (arith, room b e, op)),
          IsSolvent-set accs r.acc (b + r.amount) known solvent (ground (arith, room b e, op)),
          length-set accs r.acc (b + r.amount),
          ground (arith, sum-set accs r.acc b (b + r.amount) e),
          ground (arith, op),
        )
        | inr (inl op) ↦ elim (dec_le r.amount b) [
          | yes enough ↦ (
            record { balances = set accs r.acc (b - r.amount); reply = some 1; stop = false },
            serve_withdraw accs r b e op (solvent r.acc b e) (positive (omega arith)) enough,
            IsSolvent-set accs r.acc (b - r.amount) known solvent
                (omega (arith, solvent r.acc b e)),
            length-set accs r.acc (b - r.amount),
            ground (arith, sum-set accs r.acc b (b - r.amount) e),
            ground (arith, op),
          )
          | no poor ↦ (
            record { balances = accs; reply = some 0; stop = false },
            serve_refuse accs r b e op (solvent r.acc b e) (positive (omega arith)) (omega arith),
            solvent,
            refl,
            ground arith,
            ground (arith, op),
          )
        ]
        | inr (inr (inl op)) ↦ (
          record { balances = accs; reply = some b; stop = false },
          serve_check accs r b e op,
          solvent,
          refl,
          ground arith,
          ground (arith, op),
        )
        | inr (inr (inr op)) ↦ (
          record { balances = accs; reply = none; stop = true },
          serve_exit accs r b e op,
          solvent,
          refl,
          ground arith,
          ground (arith, op),
        )
      ]
