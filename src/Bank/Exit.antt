-- ===== src/Bank/Exit.antt =====
-- The end of a run of benchmarks/bank.c: the EXIT messages that `bank_app` sends, and the results that
-- `main` receives.
mod Tests
use native.Mathlib.Nat.{
  mul-mod_left, mod-add-div', lt_of_mul-lt-mul_right, le_of_mul-le-mul_right, mod-eq_of_lt,
}
use ssmp.Base.{
  ℕ, zero, suc, ◌+◌, ◌*◌, ◌/◌, ◌%◌, ◌≤◌, ◌<◌, ◌≡◌, ◌≢◌, ◌⊎◌, inl, inr, refl, arith, List, [], ◌∷◌,
  none, some, get_elem?, length, if◌then◌else◌, ◌==◌, ℕ_discrete, sym, ap, ◌∙◌, subst,
}
use ssmp.Base.Family.{sum_below, total}
use ssmp.Base.Numbers.{times_injective}
use ssmp.Base.Outcome.{Outcome, done, fault, ◌>>=◌, >>=_returns}
use ssmp.Bank.{color_dsl, color_app1, Setup, setup}
use ssmp.Bank.Sequence.{SetUp, setup-SetUp}

-- `for (i = 0; i < num_dsl; i++) { msg->w0 = EXIT; ssmp_send(dsl_seq[i], msg); }`, with `k` rounds left:
-- the processes that get the message
unfoldable pub exit_loop : (dsl_seq : List ℕ) → (k i : ℕ) → Outcome (List ℕ)
exit_loop dsl_seq zero i = done []
exit_loop dsl_seq (suc k) i = elim (get_elem? dsl_seq i) [
  | none ↦ fault
  | some d ↦ exit_loop dsl_seq k (i + 1) >>= λ rest. done (d ∷ rest)
]

-- `if (ssmp_id() == 1)` of `bank_app`, which the processes call that are no servers
unfoldable pub exits : (per_core num_procs id : ℕ) → Outcome (List ℕ)
unfolding exit_loop
exits per_core num_procs id =
    let s = setup per_core num_procs in
    if color_dsl per_core id == 0
    then (if id == 1 then exit_loop s.dsl_seq s.num_dsl 0 else done [])
    else done []

-- the loop of process 0 in `main` over the processes, with `k` rounds left: those it receives from
unfoldable pub results_loop : (per_core k c : ℕ) → List ℕ
results_loop per_core zero c = []
results_loop per_core (suc k) c =
    if color_app1 per_core c == 0
    then results_loop per_core k (c + 1)
    else c ∷ results_loop per_core k (c + 1)

-- how often a process is in a list
abbrev pub occurrences : ℕ → List ℕ → ℕ
occurrences d [] = 0
occurrences d (x ∷ xs) = (if x == d then 1 else 0) + occurrences d xs

abbrev Within : (k i q : ℕ) → Type 0
Within k i q = (i ≤ q) × (q < i + k)

module _ (per_core : ℕ) (pos : 0 < per_core) where
  -- the processes from server `i` on, `k` of them
  record Exits (k i : ℕ) (ds : List ℕ) : Type 0 where
    count : length ds ≡ k
    once : (q : ℕ) → Within k i q → occurrences (q * per_core) ds ≡ 1
    never : (d : ℕ) → ((q : ℕ) → Within k i q → q * per_core ≢ d) → occurrences d ds ≡ 0

  occurrences_head : (x : ℕ) (xs : List ℕ) → occurrences x (x ∷ xs) ≡ 1 + occurrences x xs
  occurrences_head x xs = ground arith

  occurrences_tail : (d x : ℕ) (xs : List ℕ) → x ≢ d → occurrences d (x ∷ xs) ≡ occurrences d xs
  occurrences_tail d x xs ne = ground (arith, ne)

  cons-Exits : (k i : ℕ) (ds : List ℕ) → Exits k (i + 1) ds → Exits (suc k) i (i * per_core ∷ ds)
  cons-Exits k i ds rest =
      let apart : (q : ℕ) → Within k (i + 1) q → q * per_core ≢ i * per_core =
        λ q w same. (let e : q ≡ i = times_injective per_core q i pos same in omega (arith, w)) in
      record {
        count = ap suc rest.count;
        once = λ q w. elim (ℕ_discrete i q) [
          | yes here ↦
              subst (λ q. occurrences (q * per_core) (i * per_core ∷ ds) ≡ 1) here
                (occurrences_head (i * per_core) ds
                  ∙ omega (arith, rest.never (i * per_core) (λ q w same. apart q w same)))
          | no further ↦
              occurrences_tail (q * per_core) (i * per_core) ds
                (λ same. further (times_injective per_core i q pos same))
              ∙ rest.once q (omega arith, omega arith)
        ];
        never = λ d apart.
            occurrences_tail d (i * per_core) ds (apart i (omega arith, omega arith))
            ∙ rest.never d (λ q w. apart q (omega arith, omega arith));
      }

  exit_loop_step :
      (seq : List ℕ) (k i x : ℕ)
      → get_elem? seq i ≡ some x
      → exit_loop seq (suc k) i ≡ (exit_loop seq k (i + 1) >>= λ rest. done (x ∷ rest))
  unfolding exit_loop
  exit_loop_step seq k i x e = ground (arith, e)

  exit_loop-Exits :
      (seq : List ℕ) (k i : ℕ)
      → ((j : ℕ) → j < i + k → get_elem? seq j ≡ some (j * per_core))
      → (ds : List ℕ) × (exit_loop seq k i ≡ done ds) × Exits k i ds
  unfolding exit_loop
  exit_loop-Exits seq zero i servers = (
    [],
    refl,
    record { count = refl; once = λ q w. absurd (omega arith); never = λ d apart. refl },
  )
  exit_loop-Exits seq (suc k) i servers =
      let (ds, ret, ok) = exit_loop-Exits seq k (i + 1) (λ j lt. servers j (omega arith)) in
      (
        i * per_core ∷ ds,
        exit_loop_step seq k i (i * per_core) (servers i (omega arith))
            ∙ >>=_returns (exit_loop seq k (i + 1)) _ ret refl,
        cons-Exits k i ds ok,
      )

  color_dsl_yes : (d : ℕ) → d % per_core ≡ 0 → color_dsl per_core d ≡ 1
  unfolding color_dsl
  color_dsl_yes d e = ground (arith, e)

  color_dsl_no : (d : ℕ) → d % per_core ≢ 0 → color_dsl per_core d ≡ 0
  unfolding color_dsl
  color_dsl_no d ne = ground (arith, ne)

  -- All servers below `n` are among those that the loop of `main` has found.
  Exits-color_dsl :
      (n : ℕ) (s : Setup) (ds : List ℕ)
      → SetUp per_core n s
      → Exits s.num_dsl 0 ds
      → (d : ℕ) → d < n
      → occurrences d ds ≡ color_dsl per_core d
  Exits-color_dsl n s ds up exits d lt = elim (ℕ_discrete (d % per_core) 0) [
    | yes e ↦
        let q : ℕ = d / per_core in
        let whole : q * per_core ≡ d = omega (arith, mod-add-div' d per_core, e) in
        let below : q < s.num_dsl =
          lt_of_mul-lt-mul_right per_core (omega (arith, whole, up.reached)) in
        subst (λ d. occurrences d ds ≡ 1) whole (exits.once q (omega arith, omega arith))
        ∙ sym (color_dsl_yes d e)
    | no ne ↦
        exits.never d (λ q w same. ne (sym (ap (λ k. k % per_core) same) ∙ mul-mod_left q per_core))
        ∙ sym (color_dsl_no d ne)
  ]

  results_skip :
      (k c : ℕ)
      → color_app1 per_core c ≡ 0
      → results_loop per_core (suc k) c ≡ results_loop per_core k (c + 1)
  unfolding results_loop
  results_skip k c e = ground (arith, e)

  results_take :
      (k c : ℕ)
      → color_app1 per_core c ≢ 0
      → results_loop per_core (suc k) c ≡ c ∷ results_loop per_core k (c + 1)
  unfolding results_loop
  results_take k c ne = ground (arith, ne)

  occurrences_before : (k c d : ℕ) → d < c → occurrences d (results_loop per_core k c) ≡ 0
  unfolding results_loop
  occurrences_before zero c d lt = refl
  occurrences_before (suc k) c d lt = ground (arith, occurrences_before k (c + 1) d (omega arith))

  app1-cases : (c : ℕ) → (color_app1 per_core c ≡ 0) ⊎ (color_app1 per_core c ≡ 1)
  unfolding color_app1
  app1-cases c = ground arith

  occurrences-results_loop :
      (k c d : ℕ)
      → c ≤ d
      → d < c + k
      → occurrences d (results_loop per_core k c) ≡ color_app1 per_core d
  occurrences-results_loop zero c d le lt = absurd (omega arith)
  occurrences-results_loop (suc k) c d le lt = elim (app1-cases c) [
    | inl skip ↦ ap (occurrences d) (results_skip k c skip) ∙ elim (ℕ_discrete c d) [
      | yes here ↦
          occurrences_before k (c + 1) d (omega arith)
          ∙ sym (subst (λ c. color_app1 per_core c ≡ 0) here skip)
      | no later ↦ occurrences-results_loop k (c + 1) d (omega arith) (omega arith)
    ]
    | inr take ↦
        ap (occurrences d) (results_take k c (omega (arith, take))) ∙ elim (ℕ_discrete c d) [
          | yes here ↦
              subst (λ x. occurrences d (x ∷ results_loop per_core k (c + 1)) ≡ 1) (sym here)
                (occurrences_head d (results_loop per_core k (c + 1))
                  ∙ omega (arith, occurrences_before k (c + 1) d (omega arith)))
              ∙ sym (subst (λ c. color_app1 per_core c ≡ 1) here take)
          | no later ↦
              occurrences_tail d c (results_loop per_core k (c + 1)) later
              ∙ occurrences-results_loop k (c + 1) d (omega arith) (omega arith)
        ]
  ]

exits_one :
    (per_core n : ℕ)
    → color_dsl per_core 1 ≡ 0
    → exits per_core n 1 ≡ exit_loop (setup per_core n).dsl_seq (setup per_core n).num_dsl 0
unfolding exits
exits_one per_core n e = ground (arith, e)

exits_other : (per_core n id : ℕ) → id ≢ 1 → exits per_core n id ≡ done []
unfolding exits
exits_other per_core n id ne = ground (arith, ne)

-- The end of a run. For two processes or more, less than 256, of which one in `dsl_per_core` is a
-- server, with `dsl_per_core` two or more: process 1 sends EXIT once to each server and to no client,
-- within `dsl_seq`; no other process sends one; and process 0 receives one result from each client
-- and none from a server.
pub exits_lem :
    (per_core n : ℕ)
    → 2 ≤ per_core
    → 2 ≤ n
    → n < 256
    → (ds : List ℕ) × (exits per_core n 1 ≡ done ds)
      × (length ds ≡ (setup per_core n).num_dsl)
      × ((d : ℕ) → d < n → occurrences d ds ≡ color_dsl per_core d)
      × ((id : ℕ) → id ≢ 1 → exits per_core n id ≡ done [])
      × ((d : ℕ) → d < n → occurrences d (results_loop per_core n 0) ≡ color_app1 per_core d)
exits_lem per_core n two some_procs few =
    let pos : 0 < per_core = omega arith in
    let s : Setup = setup per_core n in
    let up : SetUp per_core n s = setup-SetUp per_core pos n few in
    let client : 1 % per_core ≢ 0 = omega (arith, mod-eq_of_lt {n = 1} {m = per_core} two) in
    let (ds, ret, ok) =
      exit_loop-Exits per_core pos s.dsl_seq s.num_dsl 0 (λ j lt. up.servers j (omega arith)) in
    (
      ds,
      exits_one per_core n (color_dsl_no per_core pos 1 client) ∙ ret,
      ok.count,
      Exits-color_dsl per_core pos n s ds up ok,
      exits_other per_core n,
      λ d lt. occurrences-results_loop per_core pos n 0 d (omega arith) (omega arith),
    )
