-- ===== src/Bank/Client.antt =====
-- The requests of a client: the loop of `bank_app` of benchmarks/bank.c.
use Prim.Native.Nat.{bit_and}
use native.Mathlib.Nat.{
  div-add-mod, div-lt_iff_lt-mul, mod-lt, mod-add-div', mul-mod_left, mul-le-mul_right, add-mul,
}
use ssmp.Base.{
  ℕ_discrete, ℕ, ◌+◌, ◌-◌, ◌*◌, ◌/◌, ◌%◌, ◌≤◌, ◌<◌, ◌≡◌, arith, Option, some, if◌then◌else◌, ltb,
  List, ap, ◌⊎◌, inl, inr, dec_lt, subst,
}
use ssmp.Base.Bits.{bit_and_le}
use ssmp.Bank.{Request, u32, get_dsl, color_dsl, Setup, setup}
use ssmp.Bank.Sequence.{SetUp, setup-SetUp}
use ssmp.Bank.Servers.{IsServer}
use ssmp.Helpers.Random.{Seeds, xorshf96}

-- What the percentages of the three operations become in `main`: the one of the checks gets what is
-- missing to 100, and then each is added to the one before it.
pub record Percentages : Type 0 where
  pub deposit_perc : ℕ
  pub withdraw_perc : ℕ
  pub balance_perc : ℕ

-- 32-bit numbers, none of them negative
unfoldable pub set_percentages : Percentages → Percentages
set_percentages p =
    let missing = 100 - (p.deposit_perc + p.balance_perc + p.withdraw_perc) in
    let balance = if ltb 0 missing then p.balance_perc + missing else p.balance_perc in
    let withdraw = p.withdraw_perc + p.deposit_perc in
    record {
      deposit_perc = p.deposit_perc;
      withdraw_perc = withdraw;
      balance_perc = balance + withdraw;
    }

-- `if (nb < deposit_perc) deposit(acc, dsl, 1); else if (nb < withdraw_perc) withdraw(acc, dsl, 1);
-- else check(acc, dsl);`: the request that is sent. `junk` is the w2 that the message still has.
unfoldable pub request_for : Percentages → (nb acc junk : ℕ) → Request
request_for p nb acc junk =
    if ltb nb p.deposit_perc
    then record { op = 0; acc = acc; amount = 1 }
    else if ltb nb p.withdraw_perc
    then record { op = 1; acc = acc; amount = 1 }
    else record { op = 2; acc = acc; amount = junk }

-- one round of the loop of `bank_app`: the server, or nothing if its number is read out of bounds, the
-- request, and the seeds
unfoldable pub client_op :
    Percentages → List ℕ → (nb_accounts num_dsl junk : ℕ) → Seeds → Option ℕ × Request × Seeds
unfolding request_for
client_op p dsl_seq nb_accounts num_dsl junk seeds =
    let per_dsl = nb_accounts / num_dsl in
    let s₁ = xorshf96 seeds in
    let nb = u32 (s₁.z % 100) in
    let s₂ = xorshf96 s₁ in
    let acc = bit_and (u32 s₂.z) (nb_accounts - 1) in
    (get_dsl dsl_seq acc per_dsl, request_for p nb (acc % per_dsl) junk, s₂)

-- The request for a draw `nb` and the account `acc`.
abbrev pub IsChosen : Percentages → (nb acc : ℕ) → Request → Type 0
IsChosen p nb acc r =
    (r.acc ≡ acc)
    × (((nb < p.deposit_perc) × (r.op ≡ 0) × (r.amount ≡ 1))
        ⊎ ((p.deposit_perc ≤ nb) × (nb < p.withdraw_perc) × (r.op ≡ 1) × (r.amount ≡ 1))
        ⊎ ((p.deposit_perc ≤ nb) × (p.withdraw_perc ≤ nb) × (r.op ≡ 2)))

request_for-IsChosen :
    (p : Percentages) (nb acc junk : ℕ) → IsChosen p nb acc (request_for p nb acc junk)
unfolding request_for
request_for-IsChosen p nb acc junk = (
  ground arith,
  elim (dec_lt nb p.deposit_perc) [
    | yes low ↦ inl (low, ground (arith, low), ground (arith, low))
    | no high ↦ inr (elim (dec_lt nb p.withdraw_perc) [
      | yes low ↦ inl (omega arith, low, ground (arith, high, low), ground (arith, high, low))
      | no above ↦ inr (omega arith, omega arith, ground (arith, high, above))
    ])
  ],
)

-- The `q`-th server is a process of the bank, and a server.
SetUp-IsServer :
    (per_core n q : ℕ) (s : Setup)
    → SetUp per_core n s
    → q < s.num_dsl
    → IsServer per_core n (q * per_core)
unfolding color_dsl
SetUp-IsServer per_core n q s up lt =
    let upto : (q + 1) * per_core ≤ s.num_dsl * per_core =
      mul-le-mul_right {m = q + 1} {n = s.num_dsl} per_core (omega arith) in
    let one_more : (q + 1) * per_core ≡ q * per_core + per_core =
      omega (arith, add-mul q 1 per_core) in
    (omega (arith, upto, one_more, up.needed), ground (arith, mul-mod_left q per_core))

-- The clients. For one process or more, less than 256, a `dsl_per_core` that is not 0, and accounts, one or
-- more, whose number the number of the servers divides: whatever the seeds, each round of a client
-- draws a number below 100 and then one of the accounts. The request goes to a process of the bank that
-- runs a server, the one that is responsible for that account, with its number among the accounts of that
-- server. It is a deposit of 1 if the number that was drawn is below `deposit_perc`, a withdrawal of 1 if
-- it is not and is below `withdraw_perc`, and else a check.
pub client_op_lem :
    (per_core n : ℕ) (p : Percentages) (nb_accounts junk : ℕ) (seeds : Seeds)
    → 0 < per_core
    → 0 < n
    → n < 256
    → 0 < nb_accounts
    → nb_accounts % (setup per_core n).num_dsl ≡ 0
    → (q acc : ℕ) × (r : Request) × (client_op p
          (setup per_core n).dsl_seq
          nb_accounts
          (setup per_core n).num_dsl
          junk
          seeds
        ≡ (some (q * per_core), r, xorshf96 (xorshf96 seeds)))
      × IsServer per_core n (q * per_core)
      × (acc < nb_accounts / (setup per_core n).num_dsl)
      × (q * (nb_accounts / (setup per_core n).num_dsl) + acc
          ≡ bit_and (u32 (xorshf96 (xorshf96 seeds)).z) (nb_accounts - 1))
      × IsChosen p ((xorshf96 seeds).z % 100) acc r
unfolding client_op get_dsl
client_op_lem per_core n p nb_accounts junk seeds pos some_procs few some_accounts even =
    let s : Setup = setup per_core n in
    let up : SetUp per_core n s = setup-SetUp per_core pos n few in
    let s₁ : Seeds = xorshf96 seeds in
    let s₂ : Seeds = xorshf96 s₁ in
    let per_dsl : ℕ = nb_accounts / s.num_dsl in
    let drawn : ℕ = bit_and (u32 s₂.z) (nb_accounts - 1) in
    let below : drawn < nb_accounts = omega (arith, bit_and_le (u32 s₂.z) (nb_accounts - 1)) in
    let whole : nb_accounts ≡ s.num_dsl * per_dsl =
      omega (arith, div-add-mod nb_accounts s.num_dsl, even) in
    let each : 0 < per_dsl = elim (ℕ_discrete per_dsl 0) [
      | yes none_each ↦ absurd (omega (arith, whole, ap (λ k. s.num_dsl * k) none_each))
      | no some_each ↦ omega arith
    ] in
    let index : drawn / per_dsl < s.num_dsl =
      (div-lt_iff_lt-mul {k = per_dsl} {x = drawn} {y = s.num_dsl} each).1
        (omega (arith, whole, below)) in
    let nb : u32 (s₁.z % 100) ≡ s₁.z % 100 = omega arith in
    let r : Request = request_for p (u32 (s₁.z % 100)) (drawn % per_dsl) junk in
    (
      drawn / per_dsl,
      drawn % per_dsl,
      r,
      ap (λ o. (o, r, s₂)) (up.servers (drawn / per_dsl) index),
      SetUp-IsServer per_core n (drawn / per_dsl) s up index,
      mod-lt drawn each,
      omega (arith, mod-add-div' drawn per_dsl),
      subst (λ x. IsChosen p x (drawn % per_dsl) r) nb
          (request_for-IsChosen p (u32 (s₁.z % 100)) (drawn % per_dsl) junk),
    )
