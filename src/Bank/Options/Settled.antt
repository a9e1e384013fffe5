-- ===== src/Bank/Options/Settled.antt =====
-- What `main` of benchmarks/bank.c has settled when it goes on with its options.
use ssmp.Base.{
  ℕ, ◌+◌, ◌^◌, ◌≤◌, ◌<◌, ◌≡◌, ◌⊎◌, inl, inr, refl, arith, true, List, [], ◌∷◌, ◌∙◌, ap, Bool-cases,
  ℕ_discrete, if◌then◌else◌,
}
use ssmp.Base.Outcome.{done, exited}
use ssmp.Bank.{signed_le}
use ssmp.Bank.Options.{
  Options, default_options, Answer, flag_set, help, accounts, ops, threads, checks, deposits,
  servers, withdraws, disjoint_set, not_known, other_option, set_option, options_loop, are_accepted,
  adjust, main_options,
}
use ssmp.Helpers.Powers.{pow2roundup_lem}

-- Percentages that do not overflow when they are added.
abbrev pub AreSmall : List Answer → Type 0
AreSmall [] = 0 ≤ 0
AreSmall (checks v ∷ as') = (v < 2 ^ 29) × AreSmall as'
AreSmall (deposits v ∷ as') = (v < 2 ^ 29) × AreSmall as'
AreSmall (withdraws v ∷ as') = (v < 2 ^ 29) × AreSmall as'
AreSmall (a ∷ as') = AreSmall as'

abbrev InRange : Options → Type 0
InRange o =
    (o.nb_accounts < 2 ^ 32)
    × (o.num_ops < 2 ^ 32)
    × (o.num_procs < 2 ^ 8)
    × (o.balance_perc < 2 ^ 29)
    × (o.deposit_perc < 2 ^ 29)
    × (o.withdraw_perc < 2 ^ 29)

pub record IsReady (o : Options) : Type 0 where
  pub accounts_power : (k : ℕ) × (o.nb_accounts ≡ 2 ^ k) × (1 ≤ k) × (k ≤ 31)
  pub ops_positive : o.num_ops < 2 ^ 31
  pub some_procs : 0 < o.num_procs
  pub few_procs : o.num_procs < 2 ^ 8
  pub deposit_first : o.deposit_perc ≤ o.withdraw_perc
  pub withdraw_next : o.withdraw_perc ≤ o.balance_perc
  pub balance_last : o.balance_perc ≡ 100

-- what the checks ask for, in numbers
pub record IsAccepted (o : Options) : Type 0 where
  pub ops_ok : o.num_ops < 2 ^ 31
  pub accounts_two : 2 ≤ o.nb_accounts
  pub accounts_ok : o.nb_accounts < 2 ^ 31
  pub procs_ok : 0 < o.num_procs
  pub sum_ok : o.deposit_perc + o.balance_perc + o.withdraw_perc ≤ 100

are_accepted-IsAccepted : (o : Options) → InRange o → are_accepted o ≡ true → IsAccepted o
unfolding are_accepted signed_le
are_accepted-IsAccepted o r h = record {
  ops_ok = ground (arith, r.1);
  accounts_two = ground (arith, r.0);
  accounts_ok = ground (arith, r.0);
  procs_ok = ground (arith, r.2);
  sum_ok = ground (arith, r.3, r.4, r.5);
}

adjust-IsReady : (o : Options) → InRange o → IsAccepted o → IsReady (adjust o)
unfolding adjust
adjust-IsReady o r a = record {
  accounts_power = elim (pow2roundup_lem o.nb_accounts r.0) [
    | inl (big, e) ↦ absurd (omega (arith, a.accounts_ok))
    | inr (k, e, le, least) ↦ (
      k,
      e,
      elim (ℕ_discrete k 0) [
        | yes none_of ↦ absurd (omega (arith, a.accounts_two, ap (λ n. 2 ^ n) none_of))
        | no some_of ↦ omega arith
      ],
      least 31 (omega (arith, a.accounts_ok)),
    )
  ];
  ops_positive = a.ops_ok;
  some_procs = a.procs_ok;
  few_procs = r.2;
  deposit_first = omega (arith, a.sum_ok);
  withdraw_next = ground (arith, a.sum_ok);
  balance_last = ground (arith, a.sum_ok);
}

IsAccepted-are_accepted : (o : Options) → InRange o → IsAccepted o → are_accepted o ≡ true
unfolding are_accepted signed_le
IsAccepted-are_accepted o r a =
    ground (arith, a.ops_ok, a.accounts_two, a.accounts_ok, a.procs_ok, a.sum_ok, r.3)

default_options-InRange : InRange default_options
unfolding default_options
default_options-InRange =
    (omega arith, omega arith, omega arith, omega arith, omega arith, omega arith)

-- the loop ends with options in range, or at an option that ends the process
options_loop-InRange :
    (answers : List Answer) (o : Options)
    → AreSmall answers
    → InRange o
    → ((o' : Options) × (options_loop answers o ≡ done o') × InRange o')
      ⊎ ((status : ℕ) × (status ≤ 1) × (options_loop answers o ≡ exited status))
unfolding options_loop set_option
options_loop-InRange [] o small r = inl (o, refl, r)
options_loop-InRange (flag_set ∷ as') o small r = options_loop-InRange as' o small r
options_loop-InRange (help ∷ as') o small r = inr (0, omega arith, refl)
options_loop-InRange (accounts v ∷ as') o small r =
    options_loop-InRange as' _ small (omega arith, r.1, r.2, r.3, r.4, r.5)
options_loop-InRange (ops v ∷ as') o small r =
    options_loop-InRange as' _ small (r.0, omega arith, r.2, r.3, r.4, r.5)
options_loop-InRange (threads v ∷ as') o small r =
    options_loop-InRange as' _ small (r.0, r.1, omega arith, r.3, r.4, r.5)
options_loop-InRange (checks v ∷ as') o small r =
    options_loop-InRange as' _ small.1 (r.0, r.1, r.2, omega (arith, small.0), r.4, r.5)
options_loop-InRange (deposits v ∷ as') o small r =
    options_loop-InRange as' _ small.1 (r.0, r.1, r.2, r.3, omega (arith, small.0), r.5)
options_loop-InRange (withdraws v ∷ as') o small r =
    options_loop-InRange as' _ small.1 (r.0, r.1, r.2, r.3, r.4, omega (arith, small.0))
options_loop-InRange (servers v ∷ as') o small r =
    options_loop-InRange as' _ small (r.0, r.1, r.2, r.3, r.4, r.5)
options_loop-InRange (disjoint_set ∷ as') o small r =
    options_loop-InRange as' _ small (r.0, r.1, r.2, r.3, r.4, r.5)
options_loop-InRange (not_known ∷ as') o small r = inr (0, omega arith, refl)
options_loop-InRange (other_option ∷ as') o small r = inr (1, omega arith, refl)

checked :
    (answers : List Answer) (o : Options)
    → options_loop answers default_options ≡ done o
    → main_options answers ≡ (if are_accepted o then done (adjust o) else exited 134)
unfolding main_options
checked answers o e = ground (arith, e)

ended :
    (answers : List Answer) (status : ℕ)
    → options_loop answers default_options ≡ exited status
    → main_options answers ≡ exited status
unfolding main_options
ended answers status e = ground (arith, e)

-- The options. If the percentages that are given are below 2^29, then `main` ends with status 0 or 1 at
-- an option, or it comes to its checks. There it goes on if the options are acceptable as numbers: the
-- number of accounts is a power of two from 2 to 2^31 then, there are one to 255 processes, and the three
-- percentages are in order, the last of them 100. If they are not, it aborts.
pub main_options_lem :
    (answers : List Answer)
    → AreSmall answers
    → ((status : ℕ) × (status ≤ 1) × (main_options answers ≡ exited status))
      ⊎ ((o : Options) × (options_loop answers default_options ≡ done o)
          × ((IsAccepted o × (main_options answers ≡ done (adjust o)) × IsReady (adjust o))
              ⊎ ((¬ IsAccepted o) × (main_options answers ≡ exited 134))))
main_options_lem answers small =
    elim (options_loop-InRange answers default_options small default_options-InRange) [
      | inr (status, le, e) ↦ inl (status, le, ended answers status e)
      | inl (o, e, r) ↦ elim (Bool-cases (are_accepted o)) [
        | inl yes_ok ↦
            let a : IsAccepted o = are_accepted-IsAccepted o r yes_ok in
            inr (
              o,
              e,
              inl (
                a,
                checked answers o e ∙ ap (λ b. if b then done (adjust o) else exited 134) yes_ok,
                adjust-IsReady o r a,
              ),
            )
        | inr refused ↦ inr (
          o,
          e,
          inr (
            λ a. (let ok : are_accepted o ≡ true = IsAccepted-are_accepted o r a in cc),
            checked answers o e ∙ ap (λ b. if b then done (adjust o) else exited 134) refused,
          ),
        )
      ]
    ]
