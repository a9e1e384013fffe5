-- ===== src/Bank/Sequence.antt =====
-- What the loop over the processes in `main` of benchmarks/bank.c leaves: the servers are the multiples of
-- `dsl_per_core`, in their order.
use native.Mathlib.Nat.{
  mod-add-div', le_of_mul-le-mul_right, lt_of_mul-lt-mul_right, mul-mod_left, add-mul,
}
use ssmp.Base.{
  ℕ, zero, suc, ◌+◌, ◌*◌, ◌/◌, ◌%◌, ◌^◌, ◌≤◌, ◌<◌, ◌≡◌, ◌≢◌, arith, some, get_elem?, set, length,
  length-set, length-replicate, get_elem?-set_self, get_elem?-set_ne, ℕ_discrete, refl, ap, ◌∙◌,
  subst, sym,
}
use ssmp.Base.Family.{sum_below, total}
use ssmp.Bank.{color_dsl, color_app1, Setup, setup_round, setup_loop, setup}

-- what holds when the processes below `i` have been told apart
pub record SetUp (per_core i : ℕ) (s : Setup) : Type 0 where
  pub long : length s.dsl_seq ≡ 256
  pub servers : (j : ℕ) → j < s.num_dsl → get_elem? s.dsl_seq j ≡ some (j * per_core)
  pub reached : i ≤ s.num_dsl * per_core
  pub needed : s.num_dsl * per_core < i + per_core
  pub all : s.num_dsl + s.num_app ≡ i
  pub clients : s.num_app ≡ sum_below i (color_app1 per_core)

module _ (per_core : ℕ) (pos : 0 < per_core) where
  round_server :
      (i : ℕ) (s : Setup)
      → i % per_core ≡ 0
      → setup_round per_core i s
        ≡ record s { num_dsl = (s.num_dsl + 1) % 2 ^ 8; dsl_seq = set s.dsl_seq s.num_dsl i }
  unfolding setup_round color_dsl
  round_server i s e = rw (e) refl

  round_client :
      (i : ℕ) (s : Setup)
      → i % per_core ≢ 0
      → setup_round per_core i s ≡ record s { num_app = (s.num_app + 1) % 2 ^ 8 }
  unfolding setup_round color_dsl
  round_client i s ne = ground (arith, ne)

  quotient : (i : ℕ) → i % per_core ≡ 0 → i / per_core * per_core ≡ i
  quotient i e = omega (arith, mod-add-div' i per_core, e)

  -- The process at hand is the next multiple.
  next_multiple :
      (i d : ℕ)
      → i % per_core ≡ 0
      → i ≤ d * per_core
      → d * per_core < i + per_core
      → d * per_core ≡ i
  next_multiple i d e le lt =
      let q : ℕ = i / per_core in
      let low : q ≤ d =
        le_of_mul-le-mul_right {m = q} {n = d} {k = per_core} (omega (arith, quotient i e)) pos in
      let upper : d * per_core < (q + 1) * per_core =
        omega (arith, quotient i e, add-mul q 1 per_core) in
      let high : d < q + 1 = lt_of_mul-lt-mul_right per_core upper in
      let same : d ≡ q = omega arith in ap (λ k. k * per_core) same ∙ quotient i e

  between : (i d : ℕ) → i % per_core ≢ 0 → i ≤ d * per_core → i + 1 ≤ d * per_core
  between i d ne le = elim (ℕ_discrete i (d * per_core)) [
    | yes e ↦ absurd (ne (ap (λ k. k % per_core) e ∙ mul-mod_left d per_core))
    | no apart ↦ omega arith
  ]

  sum_server :
      (i : ℕ)
      → i % per_core ≡ 0
      → sum_below (i + 1) (color_app1 per_core) ≡ sum_below i (color_app1 per_core)
  unfolding total color_app1 color_dsl
  sum_server i e =
      let step : i + 1 ≡ suc i = omega arith in
      ap (λ k. sum_below k (color_app1 per_core)) step ∙ ground (arith, e)

  sum_client :
      (i : ℕ)
      → i % per_core ≢ 0
      → sum_below (i + 1) (color_app1 per_core) ≡ sum_below i (color_app1 per_core) + 1
  unfolding total color_app1 color_dsl
  sum_client i ne =
      let step : i + 1 ≡ suc i = omega arith in
      ap (λ k. sum_below k (color_app1 per_core)) step ∙ ground (arith, ne)

  sum_none : 0 ≡ sum_below 0 (color_app1 per_core)
  unfolding total
  sum_none = refl

  round-server-SetUp :
      (i : ℕ) (s : Setup)
      → i < 255
      → i % per_core ≡ 0
      → SetUp per_core i s
      → SetUp per_core
          (i + 1)
          (record s { num_dsl = (s.num_dsl + 1) % 2 ^ 8; dsl_seq = set s.dsl_seq s.num_dsl i })
  round-server-SetUp i s lt e up =
      let fits : (s.num_dsl + 1) % 2 ^ 8 ≡ s.num_dsl + 1 = omega (arith, up.all) in
      let here : s.num_dsl * per_core ≡ i = next_multiple i s.num_dsl e up.reached up.needed in
      let next : (s.num_dsl + 1) % 2 ^ 8 * per_core ≡ i + per_core =
        ap (λ k. k * per_core) fits ∙ omega (arith, here, add-mul s.num_dsl 1 per_core) in
      record {
        long = length-set s.dsl_seq s.num_dsl i ∙ up.long;
        servers = λ j below. elim (ℕ_discrete s.num_dsl j) [
          | yes now ↦
              subst (λ k. get_elem? (set s.dsl_seq s.num_dsl i) k ≡ some (k * per_core)) now
                (get_elem?-set_self s.dsl_seq s.num_dsl i (omega (arith, up.long, up.all))
                  ∙ ap some (sym here))
          | no before ↦
              get_elem?-set_ne s.dsl_seq {i = s.num_dsl} {j = j} i before
              ∙ up.servers j (omega (arith, below, fits))
        ];
        reached = omega (arith, next);
        needed = omega (arith, next);
        all = omega (arith, fits, up.all);
        clients = up.clients ∙ sym (sum_server i e);
      }

  setup_round-SetUp :
      (i : ℕ) (s : Setup)
      → i < 255
      → SetUp per_core i s
      → SetUp per_core (i + 1) (setup_round per_core i s)
  setup_round-SetUp i s lt up = elim (ℕ_discrete (i % per_core) 0) [
    | yes e ↦
        subst (SetUp per_core (i + 1)) (sym (round_server i s e)) (round-server-SetUp i s lt e up)
    | no ne ↦ subst (SetUp per_core (i + 1)) (sym (round_client i s ne)) (record {
      long = up.long;
      servers = up.servers;
      reached = between i s.num_dsl ne up.reached;
      needed = omega (arith, up.needed);
      all = omega (arith, up.all);
      clients = omega (arith, up.clients, up.all, sum_client i ne);
    })
  ]

  setup_loop-SetUp :
      (k i n : ℕ) (s : Setup)
      → i + k ≡ n
      → n < 256
      → SetUp per_core i s
      → SetUp per_core n (setup_loop per_core k i s)
  unfolding setup_loop
  setup_loop-SetUp zero i n s e lt up =
      let same : i ≡ n = omega arith in subst (λ x. SetUp per_core x s) same up
  setup_loop-SetUp (suc k) i n s e lt up =
      setup_loop-SetUp k (i + 1) n (setup_round per_core i s) (omega arith) lt
        (setup_round-SetUp i s (omega arith) up)

  pub setup-SetUp :
      (num_procs : ℕ) → num_procs < 256 → SetUp per_core num_procs (setup per_core num_procs)
  unfolding setup
  setup-SetUp num_procs lt = setup_loop-SetUp num_procs 0 num_procs _ (omega arith) lt (record {
    long = length-replicate {A = ℕ} 256 0;
    servers = λ j below. absurd (omega arith);
    reached = omega arith;
    needed = omega arith;
    all = omega arith;
    clients = sum_none;
  })
