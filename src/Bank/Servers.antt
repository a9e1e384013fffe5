-- ===== src/Bank/Servers.antt =====
-- Which processes are servers, and which server has an account.
use ssmp.Base.{
  ℕ, zero, suc, ◌+◌, ◌/◌, ◌%◌, ◌≤◌, ◌<◌, ◌≡◌, ◌≢◌, arith, List, some, get_elem?, set, length,
  length-set, length-replicate, get_elem?-some, get_elem?-set_self, get_elem?-set_ne,
  get_elem?-replicate, get_elem?_beyond, replicate, ℕ_discrete, dec_lt, ap, ◌∙◌, subst, sym,
}
use ssmp.Bank.{color_dsl, Setup, setup_round, setup_loop, setup, get_dsl}

abbrev pub IsServer : (per_core num_procs d : ℕ) → Type 0
IsServer per_core num_procs d = (d < num_procs) × (color_dsl per_core d ≡ 1)

abbrev Servers : (per_core num_procs : ℕ) → List ℕ → Type 0
Servers per_core num_procs seq =
    (length seq ≡ 256) × ((j d : ℕ) → get_elem? seq j ≡ some d → IsServer per_core num_procs d)

module _ (per_core n : ℕ) where
  Servers-set :
      (seq : List ℕ) (i v : ℕ)
      → Servers per_core n seq
      → IsServer per_core n v
      → Servers per_core n (set seq i v)
  Servers-set seq i v s ok = (
    length-set seq i v ∙ s.0,
    λ j d e. elim (ℕ_discrete i j) [
      | yes same ↦ elim (dec_lt i (length seq)) [
        | yes lt ↦
            ground
              (arith, get_elem?-set_self seq i v lt, ap (λ k. get_elem? (set seq i v) k) same, ok)
        | no ge ↦ absurd (ground (arith, get_elem?_beyond (set seq i v) j, length-set seq i v))
      ]
      | no ne ↦ s.1 j d (ground (arith, get_elem?-set_ne seq {i = i} {j = j} v ne))
    ],
  )

  round_app :
      (i : ℕ) (s : Setup) → i % per_core ≢ 0 → (setup_round per_core i s).dsl_seq ≡ s.dsl_seq
  unfolding setup_round color_dsl
  round_app i s ne = ground (arith, ne)

  round_dsl :
      (i : ℕ) (s : Setup)
      → i % per_core ≡ 0
      → (setup_round per_core i s).dsl_seq ≡ set s.dsl_seq s.num_dsl i
  unfolding setup_round color_dsl
  round_dsl i s e = ground (arith, e)

  color_dsl-server : (i : ℕ) → i % per_core ≡ 0 → color_dsl per_core i ≡ 1
  unfolding color_dsl
  color_dsl-server i e = ground (arith, e)

  setup_round-Servers :
      (i : ℕ) (s : Setup)
      → i < n
      → Servers per_core n s.dsl_seq
      → Servers per_core n (setup_round per_core i s).dsl_seq
  setup_round-Servers i s lt ok = elim (ℕ_discrete (i % per_core) 0) [
    | yes e ↦
        subst (Servers per_core n) (sym (round_dsl i s e))
          (Servers-set s.dsl_seq s.num_dsl i ok (lt, color_dsl-server i e))
    | no ne ↦ subst (Servers per_core n) (sym (round_app i s ne)) ok
  ]

  setup_loop-Servers :
      (k i : ℕ) (s : Setup)
      → i + k ≤ n
      → Servers per_core n s.dsl_seq
      → Servers per_core n (setup_loop per_core k i s).dsl_seq
  unfolding setup_loop
  setup_loop-Servers zero i s le ok = ok
  setup_loop-Servers (suc k) i s le ok =
      setup_loop-Servers k (i + 1) (setup_round per_core i s) (omega arith)
        (setup_round-Servers i s (omega arith) ok)

  zeros-Servers : 0 < n → Servers per_core n (replicate 256 0)
  zeros-Servers pos = (length-replicate {A = ℕ} 256 0, λ j d e. zero_entry pos j d e)
    where
      zero_entry :
          0 < n → (j d : ℕ) → get_elem? {A = ℕ} (replicate 256 0) j ≡ some d → IsServer per_core n d
      zero_entry pos j d e = elim (dec_lt j 256) [
        | yes lt ↦ ground (arith, get_elem?-replicate {A = ℕ} 256 0 j lt, color_dsl-server 0)
        | no ge ↦ absurd (
            ground
              (arith, get_elem?_beyond {A = ℕ} (replicate 256 0) j, length-replicate {A = ℕ} 256 0))
      ]

  -- For one process or more, whatever the account, if its index is below the 256 of `dsl_seq`,
  -- `get_dsl` gives a process of the bank that runs a server.
  pub get_dsl-IsServer :
      (acc per_dsl : ℕ)
      → 0 < n
      → acc / per_dsl < 256
      → (d : ℕ) × (get_dsl (setup per_core n).dsl_seq acc per_dsl ≡ some d) × IsServer per_core n d
  unfolding setup get_dsl
  get_dsl-IsServer acc per_dsl pos lt =
      let servers : Servers per_core n (setup per_core n).dsl_seq =
        setup_loop-Servers n 0 _ (omega arith) (zeros-Servers pos) in
      let (d, e) =
        get_elem?-some (setup per_core n).dsl_seq (acc / per_dsl) (omega (arith, servers.0)) in
      (d, e, servers.1 _ d e)
