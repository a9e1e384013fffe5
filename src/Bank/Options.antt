-- ===== src/Bank/Options.antt =====
-- The options of benchmarks/bank.c: the loop of `main` over them, its checks, and what it makes of them.
pub mod Settled
mod Tests
use ssmp.Base.{
  ℕ, ◌+◌, ◌-◌, ◌%◌, ◌^◌, Bool, true, false, List, [], ◌∷◌, if◌then◌else◌, ◌==◌, ltb, leb, ◌&&◌,
}
use ssmp.Base.Outcome.{Outcome, done, exited, ◌>>=◌}
use ssmp.Bank.{u32, signed_le}
use ssmp.Helpers.Powers.{pow2roundup}

-- The global variables: 32-bit patterns of signed integers, but for `num_procs`, a byte.
pub record Options : Type 0 where
  pub nb_accounts : ℕ
  pub num_ops : ℕ
  pub num_procs : ℕ
  pub balance_perc : ℕ
  pub deposit_perc : ℕ
  pub dsl_per_core : ℕ
  pub withdraw_perc : ℕ
  pub disjoint : ℕ

unfoldable pub default_options : Options
default_options = record {
  nb_accounts = 1024;
  num_ops = 1000000;
  num_procs = 2;
  balance_perc = 60;
  deposit_perc = 20;
  dsl_per_core = 2;
  withdraw_perc = 20;
  disjoint = 0;
}

-- An answer of `getopt_long`, by the case of the `switch` that it comes to, with what `atoi` makes of
-- its argument. `r` and `W`, which the string of options has, come to `other_option`.
pub data Answer : Type 0 where
  flag_set : Answer
  help : Answer
  accounts : ℕ → Answer
  ops : ℕ → Answer
  threads : ℕ → Answer
  checks : ℕ → Answer
  deposits : ℕ → Answer
  servers : ℕ → Answer
  withdraws : ℕ → Answer
  disjoint_set : Answer
  not_known : Answer
  other_option : Answer

-- the `switch`
unfoldable pub set_option : Answer → Options → Outcome Options
set_option flag_set o = done o
set_option help o = exited 0
set_option (accounts v) o = done (record o { nb_accounts = u32 v })
set_option (ops v) o = done (record o { num_ops = u32 v })
set_option (threads v) o = done (record o { num_procs = v % 2 ^ 8 })
set_option (checks v) o = done (record o { balance_perc = u32 v })
set_option (deposits v) o = done (record o { deposit_perc = u32 v })
set_option (servers v) o = done (record o { dsl_per_core = u32 v })
set_option (withdraws v) o = done (record o { withdraw_perc = u32 v })
set_option disjoint_set o = done (record o { disjoint = 1 })
set_option not_known o = exited 0
set_option other_option o = exited 1

-- `while(1)` over the options, until `getopt_long` has no more
unfoldable pub options_loop : List Answer → Options → Outcome Options
unfolding set_option
options_loop [] o = done o
options_loop (a ∷ as') o = set_option a o >>= options_loop as'

-- the sum of the percentages, as the machine adds them
abbrev pub perc_sum : Options → ℕ
perc_sum o = u32 (o.deposit_perc + o.balance_perc + o.withdraw_perc)

-- the four `assert`
unfoldable pub are_accepted : Options → Bool
unfolding signed_le
are_accepted o =
    signed_le 0 o.num_ops
    && signed_le 2 o.nb_accounts
    && ltb 0 o.num_procs
    && (signed_le 0 o.balance_perc
        && signed_le 0 o.withdraw_perc
        && signed_le 0 o.deposit_perc
        && signed_le (perc_sum o) 100)

-- from `nb_accounts = pow2roundup(nb_accounts)` to `balance_perc += withdraw_perc`
unfoldable pub adjust : Options → Options
unfolding pow2roundup
adjust o =
    let missing = u32 (100 + 2 ^ 32 - perc_sum o) in
    let balance = if ltb 0 missing then u32 (o.balance_perc + missing) else o.balance_perc in
    let withdraw = u32 (o.withdraw_perc + o.deposit_perc) in
    record o {
      nb_accounts = pow2roundup o.nb_accounts;
      withdraw_perc = withdraw;
      balance_perc = u32 (balance + withdraw);
    }

-- `main` up to the loop over the processes. An `assert` that fails aborts the process: for its parent
-- that is the status 134.
unfoldable pub main_options : List Answer → Outcome Options
unfolding options_loop are_accepted adjust default_options
main_options answers = do
  o ← options_loop answers default_options
  if are_accepted o then done (adjust o) else exited 134
