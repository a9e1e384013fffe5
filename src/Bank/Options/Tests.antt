-- ===== src/Bank/Options/Tests.antt =====
-- Runs of the options of the bank.
use ssmp.Base.{ℕ, ◌≡◌, ◌⊎◌, ◌≤◌, ◌^◌, ◌-◌, refl, arith, List, [], ◌∷◌}
use ssmp.Base.Outcome.{done, exited}
use ssmp.Bank.Options.{
  Options, default_options, Answer, accounts, deposits, checks, threads, other_option, options_loop,
  adjust, main_options,
}
use ssmp.Bank.Options.Settled.{IsAccepted, IsReady, main_options_lem}

abbrev thousand : List Answer
thousand = accounts 1000 ∷ deposits 10 ∷ []

abbrev settled : Options
settled = record {
  nb_accounts = 1024;
  num_ops = 1000000;
  num_procs = 2;
  balance_perc = 100;
  deposit_perc = 10;
  dsl_per_core = 2;
  withdraw_perc = 30;
  disjoint = 0;
}

thousand_run : main_options thousand ≡ done settled
unfolding main_options
thousand_run = refl

-- 256 processes are none: the number is a byte.
too_many : main_options (threads 256 ∷ []) ≡ exited 134
unfolding main_options
too_many = refl

unknown_run : main_options (other_option ∷ accounts 4 ∷ []) ≡ exited 1
unfolding main_options
unknown_run = refl

-- Percentages whose sum is 18 as the machine adds them are accepted.
overflow_run :
    main_options (checks (2 ^ 31 - 1) ∷ deposits (2 ^ 31 - 1) ∷ [])
    ≡ done (record settled {
      deposit_perc = 2147483647;
      withdraw_perc = 2147483667;
      balance_perc = 100;
    })
unfolding main_options
overflow_run = refl

main_options_lem_example :
    ((status : ℕ) × (status ≤ 1) × (main_options thousand ≡ exited status))
    ⊎ ((o : Options) × (options_loop thousand default_options ≡ done o)
        × ((IsAccepted o × (main_options thousand ≡ done (adjust o)) × IsReady (adjust o))
            ⊎ ((¬ IsAccepted o) × (main_options thousand ≡ exited 134))))
main_options_lem_example = main_options_lem thousand (omega arith, omega arith)
