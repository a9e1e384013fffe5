-- ===== src/Bank/Run.antt =====
-- A server from its start to its end: the accounts and the loop of `bank_dsl` of benchmarks/bank.c.
use ssmp.Base.{
  ℕ, zero, suc, ◌+◌, ◌/◌, ◌≤◌, ◌<◌, ◌≡◌, ◌^◌, refl, arith, ◌∙◌, Bool, true, false, List, [], ◌∷◌,
  ◌++◌, none, some, get_elem?, length, replicate, length-replicate, if◌then◌else◌, ◌==◌,
  get_elem?-replicate, dec_lt, get_elem?_beyond,
}
use ssmp.Base.Outcome.{Outcome, done, fault, exited, spinning, ◌>>=◌}
use ssmp.Bank.{Request, Served, serve}
use ssmp.Bank.Ledger.{sum, IsSolvent, paid_in, paid_out, serve_lem}

-- `while (done == 0)` over the requests that `ssmp_recv_color_start` receives: the balances in the
-- end, and what each request leaves. When no more requests come, the server still waits for one.
unfoldable pub serve_loop : List ℕ → List Request → Outcome (List ℕ × List Served)
serve_loop accs [] = spinning
serve_loop accs (r ∷ rs) = do
  s ← serve accs r
  (final, rest) ← if s.stop then done (s.balances, []) else serve_loop s.balances rs
  done (final, s ∷ rest)

-- `bank_dsl`: the allocations, of which `allocs` says whether all succeed and else an `assert` aborts, with
-- the status 134 for the parent; `nb_accounts / num_dsl` accounts of balance 0; and the loop. The bank is
-- taken to have its size, not that of a pointer, which the code allocates.
unfoldable pub bank_dsl :
    (allocs : Bool) (nb_accounts num_dsl : ℕ) → List Request → Outcome (List ℕ × List Served)
bank_dsl allocs nb_accounts num_dsl requests =
    if num_dsl == 0
    then fault
    else if allocs
    then serve_loop (replicate (nb_accounts / num_dsl) 0) requests
    else exited 134

abbrev pub total_in : List Request → ℕ
total_in [] = 0
total_in (r ∷ rs) = paid_in r + total_in rs

abbrev pub total_out : List Request → List Served → ℕ
total_out [] ss = 0
total_out (r ∷ rs) [] = 0
total_out (r ∷ rs) (s ∷ ss) = paid_out r s + total_out rs ss

-- Requests of a client to a server with `n` accounts.
abbrev pub AreGood : ℕ → List Request → Type 0
AreGood n [] = 0 ≤ n
AreGood n (r ∷ rs) = (r.op ≤ 2) × (r.acc < n) × (r.op ≤ 1 → r.amount < 2 ^ 31) × AreGood n rs

le-sum : (accs : List ℕ) (i b : ℕ) → get_elem? accs i ≡ some b → b ≤ sum accs
unfolding sum
le-sum [] i b e = absurd (cc)
le-sum (x ∷ xs) zero b e = ground arith
le-sum (x ∷ xs) (suc i) b e = omega (arith, le-sum xs i b e)

serve_exit_any :
    (accs : List ℕ) (r : Request)
    → 2 < r.op
    → serve accs r ≡ done (record { balances = accs; reply = none; stop = true })
unfolding serve
serve_exit_any accs r op = ground (arith, op)

sum-zeros : (n : ℕ) → sum (replicate n 0) ≡ 0
unfolding sum
sum-zeros zero = refl
sum-zeros (suc n) = omega (arith, sum-zeros n)

zeros-IsSolvent : (n : ℕ) → IsSolvent (replicate n 0)
zeros-IsSolvent n i b e = elim (dec_lt i n) [
  | yes lt ↦ ground (arith, get_elem?-replicate {A = ℕ} n 0 i lt)
  | no ge ↦
      absurd
        (ground (arith, get_elem?_beyond {A = ℕ} (replicate n 0) i, length-replicate {A = ℕ} n 0))
]

serve_loop_lem :
    (rs : List Request) (last : Request) (accs : List ℕ)
    → 2 < last.op
    → IsSolvent accs
    → AreGood (length accs) rs
    → sum accs + total_in rs < 2 ^ 31
    → (final : List ℕ) × (ss : List Served) × (serve_loop accs (rs ++ (last ∷ []))
        ≡ done (final, ss))
      × IsSolvent final
      × (length ss ≡ length rs + 1)
      × (length final ≡ length accs)
      × (sum final + total_out rs ss ≡ sum accs + total_in rs)
unfolding serve_loop
serve_loop_lem [] last accs op solvent good room = (
  accs,
  record { balances = accs; reply = none; stop = true } ∷ [],
  rw (serve_exit_any accs last op) refl,
  solvent,
  refl,
  refl,
  omega arith,
)
serve_loop_lem (r ∷ rs) last accs op solvent good room =
    let (s, served, solvent', same, sums, stops) =
      serve_lem accs r solvent good.1 good.2 (λ b e. omega (arith, le-sum accs r.acc b e)) in
    let on : s.stop ≡ false = ground (arith, stops, good.0) in
    let (final, ss, ret, ok, count, accounts, balance) =
      serve_loop_lem rs last s.balances op solvent' (rw same good.3) (omega arith) in
    (
      final,
      s ∷ ss,
      rw (served, on, ret) refl,
      ok,
      omega (arith, count),
      accounts ∙ same,
      omega (arith, balance, sums),
    )

-- For a server of one or more whose allocations succeed: if all requests are deposits, withdrawals and checks for its accounts,
-- with amounts that are not negative, all that is paid in is less than 2^31, and one other request
-- comes last, then the server serves every one of them and ends; no balance is negative then, it
-- has as many accounts as before, and what is left in them and what was paid out is what was paid in.
pub bank_dsl_lem :
    (nb_accounts num_dsl : ℕ) (rs : List Request) (last : Request)
    → 0 < num_dsl
    → 2 < last.op
    → AreGood (nb_accounts / num_dsl) rs
    → total_in rs < 2 ^ 31
    → (final : List ℕ) × (ss : List Served) × (bank_dsl true nb_accounts num_dsl (rs ++ (last ∷ []))
        ≡ done (final, ss))
      × IsSolvent final
      × (length ss ≡ length rs + 1)
      × (length final ≡ nb_accounts / num_dsl)
      × (sum final + total_out rs ss ≡ total_in rs)
unfolding bank_dsl
bank_dsl_lem nb_accounts num_dsl rs last pos op good room =
    let n : ℕ = nb_accounts / num_dsl in
    let len : length {A = ℕ} (replicate n 0) ≡ n = length-replicate {A = ℕ} n 0 in
    let some_dsl : (num_dsl == 0) ≡ false = ground arith in
    let (final, ss, ret, solvent, count, accounts, balance) =
      serve_loop_lem rs last (replicate n 0) op (zeros-IsSolvent n) (rw len good)
        (omega (arith, sum-zeros n)) in
    (
      final,
      ss,
      rw (some_dsl) ret,
      solvent,
      count,
      accounts ∙ len,
      omega (arith, balance, sum-zeros n),
    )
