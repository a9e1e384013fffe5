-- ===== src/Bank/Tests.antt =====
-- A server with two accounts, and the processes of a bank with a server for every two of them.
use ssmp.Base.{
  true, ℕ, zero, suc, ◌+◌, ◌-◌, ◌*◌, ◌%◌, ◌/◌, ◌++◌, ◌≡◌, ◌<◌, refl, arith, List, [], ◌∷◌, some,
  length,
}
use ssmp.Base.Outcome.{done}
use ssmp.Bank.{Request, Served, serve, deposit, check, withdraw, setup, u32}
use ssmp.Bank.Ledger.{sum, IsSolvent}
use ssmp.Bank.Run.{bank_dsl, total_in, total_out, AreGood, bank_dsl_lem}
use ssmp.Bank.Client.{IsChosen, Percentages, set_percentages, client_op, client_op_lem}
use ssmp.Helpers.Random.{Seeds, xorshf96}
use Prim.Native.Nat.{bit_and}
use ssmp.Bank.Servers.{IsServer}

abbrev two_accounts : List ℕ
two_accounts = 5 ∷ 9 ∷ []

two_accounts-IsSolvent : IsSolvent two_accounts
two_accounts-IsSolvent zero b e = ground arith
two_accounts-IsSolvent (suc zero) b e = ground arith
two_accounts-IsSolvent (suc (suc i)) b e = cc

abbrev withdrawal : Request
withdrawal = record { op = 1; acc = 1; amount = 4 }

-- A withdrawal from an account that has enough, one from an account that has not, and a check.
withdraw_paid : withdraw 1 4 two_accounts ≡ done (some 1, 5 ∷ 5 ∷ [])
unfolding withdraw serve
withdraw_paid = refl

withdraw_refused : withdraw 0 6 two_accounts ≡ done (some 0, two_accounts)
unfolding withdraw serve
withdraw_refused = refl

check_second : check 1 77 two_accounts ≡ done (some 9, two_accounts)
unfolding check serve
check_second = refl

deposit_first : deposit 0 3 two_accounts ≡ done (3, 8 ∷ 9 ∷ [])
unfolding deposit serve
deposit_first = refl

abbrev deposits : List Request
deposits =
    record { op = 0; acc = 1; amount = 7 }
    ∷ record { op = 1; acc = 1; amount = 3 }
    ∷ record { op = 1; acc = 0; amount = 1 }
    ∷ []

abbrev exit_request : Request
exit_request = record { op = 3; acc = 0; amount = 0 }

deposits-AreGood : AreGood (4 / 2) deposits
deposits-AreGood = (
  omega arith,
  omega arith,
  λ h. omega arith,
  (
    omega arith,
    omega arith,
    λ h. omega arith,
    (omega arith, omega arith, λ h. omega arith, omega arith),
  ),
)

bank_dsl_lem_example :
    (final : List ℕ) × (ss : List Served) × (bank_dsl true 4 2 (deposits ++ (exit_request ∷ []))
      ≡ done (final, ss))
    × IsSolvent final
    × (length ss ≡ length deposits + 1)
    × (length final ≡ 4 / 2)
    × (sum final + total_out deposits ss ≡ total_in deposits)
bank_dsl_lem_example =
    bank_dsl_lem 4 2 deposits exit_request (omega arith) (omega arith) deposits-AreGood
      (omega arith)

abbrev defaults : Percentages
defaults = record { deposit_perc = 20; withdraw_perc = 20; balance_perc = 60 }

abbrev some_seeds : Seeds
some_seeds = record { x = 123; y = 456; z = 789 }

percentages_run :
    set_percentages defaults ≡ record { deposit_perc = 20; withdraw_perc = 40; balance_perc = 100 }
unfolding set_percentages
percentages_run = refl

abbrev settled_percs : Percentages
settled_percs = record { deposit_perc = 20; withdraw_perc = 40; balance_perc = 100 }

even_spread : 1024 % (setup 2 4).num_dsl ≡ 0
unfolding setup
even_spread = refl

client_op_lem_example :
    (q acc : ℕ) × (r : Request) × (client_op settled_percs
        (setup 2 4).dsl_seq
        1024
        (setup 2 4).num_dsl
        0
        some_seeds
      ≡ (some (q * 2), r, xorshf96 (xorshf96 some_seeds)))
    × IsServer 2 4 (q * 2)
    × (acc < 1024 / (setup 2 4).num_dsl)
    × (q * (1024 / (setup 2 4).num_dsl) + acc
        ≡ bit_and (u32 (xorshf96 (xorshf96 some_seeds)).z) (1024 - 1))
    × IsChosen settled_percs ((xorshf96 some_seeds).z % 100) acc r
client_op_lem_example =
    client_op_lem 2 4 settled_percs 1024 0 some_seeds (omega arith) (omega arith) (omega arith)
      (omega arith) even_spread
