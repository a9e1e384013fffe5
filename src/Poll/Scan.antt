-- ===== src/Poll/Scan.antt =====
-- What a scan of the buffers does.
use ssmp.Base.{
  ℕ, zero, suc, ◌+◌, ◌≤◌, ◌<◌, ◌≡◌, ◌≢◌, ◌⊎◌, arith, refl, inl, inr, dec_lt, ◌∙◌, subst₂,
}
use ssmp.Base.Outcome.{done}
use ssmp.Poll.{Env, Probe, hit, miss, bad, memory, scan}

pub Probe-cases {ℓ} : {R : Type ℓ} (p : Probe R) → ((r : R) × (p ≡ hit r)) ⊎ (p ≡ miss) ⊎ (p ≡ bad)
Probe-cases (hit r) = inl (r, refl)
Probe-cases miss = inr (inl refl)
Probe-cases bad = inr (inr refl)

-- whether a scan that stands at `i` comes to `k` no later than to `j`
abbrev pub Before : ℕ → ℕ → ℕ → Type 0
Before i k j = ((i ≤ k) × (k ≤ j)) ⊎ ((j < i) × ((i ≤ k) ⊎ (k ≤ j)))

module _ {ℓ κ} {S : Type ℓ} {R : Type κ} (env : Env S) (s₀ : S) (n : ℕ)
    (probe : ℕ → S → Probe R) where
  -- It returns what the probe of some buffer found at some look.
  pub scan_sound :
      (fuel t i : ℕ) {r : R}
      → scan env n probe fuel t i (memory env s₀ t) ≡ done r
      → (u j : ℕ) × (j < n) × (probe j (memory env s₀ (suc u)) ≡ hit r)
  unfolding scan memory
  scan_sound zero t i h = absurd (cc)
  scan_sound (suc fuel) t i h = elim (dec_lt i n) [
    | yes lt ↦ elim (Probe-cases (probe i (env t (memory env s₀ t)))) [
      | inl (r', e) ↦ (t, i, lt, ground arith)
      | inr (inl e) ↦ scan_sound fuel (suc t) (suc i) (ground arith)
      | inr (inr e) ↦ absurd (ground arith)
    ]
    | no ge ↦ scan_sound fuel t 0 (ground arith)
  ]

  module _ (fuel t i : ℕ) (s : S) where
    scan_end : n ≤ i → scan env n probe (suc fuel) t i s ≡ scan env n probe fuel t 0 s
    unfolding scan
    scan_end le = ground arith

    scan_hit :
        {r : R} → i < n → probe i (env t s) ≡ hit r → scan env n probe (suc fuel) t i s ≡ done r
    unfolding scan
    scan_hit lt e = ground arith

    scan_miss :
        i < n
        → probe i (env t s) ≡ miss
        → scan env n probe (suc fuel) t i s ≡ scan env n probe fuel (suc t) (suc i) (env t s)
    unfolding scan
    scan_miss lt e = ground arith

  -- It returns the find of buffer `i + d`, if the looks at the `d` buffers before it find nothing.
  pub scan_first :
      (d fuel t i : ℕ) {r : R}
      → d < fuel
      → i + d < n
      → ((k : ℕ) → k < d → probe (i + k) (memory env s₀ (suc (t + k))) ≡ miss)
      → probe (i + d) (memory env s₀ (suc (t + d))) ≡ hit r
      → scan env n probe fuel t i (memory env s₀ t) ≡ done r
  unfolding memory
  scan_first d zero t i lt inside misses found = absurd (omega arith)
  scan_first zero (suc fuel) t i {r} lt inside misses found =
      let here : i + 0 ≡ i = omega arith in
      let now : t + 0 ≡ t = omega arith in
      scan_hit fuel t i _ (omega arith)
        (subst₂ (λ i t. probe i (memory env s₀ (suc t)) ≡ hit r) here now found)
  scan_first (suc d) (suc fuel) t i {r} lt inside misses found =
      let here : i + 0 ≡ i = omega arith in
      let now : t + 0 ≡ t = omega arith in
      let onwards : (k : ℕ) → (i + suc k ≡ suc i + k) × (t + suc k ≡ suc t + k) =
        λ k. (omega arith, omega arith) in
      let first : probe i (memory env s₀ (suc t)) ≡ miss =
        subst₂ (λ i t. probe i (memory env s₀ (suc t)) ≡ miss) here now (misses 0 (omega arith)) in
      scan_miss fuel t i _ (omega arith) first
      ∙ scan_first d fuel (suc t) (suc i) (omega arith) (omega arith)
          (λ k below.
            subst₂ (λ i t. probe i (memory env s₀ (suc t)) ≡ miss) (onwards k).0 (onwards k).1
              (misses (suc k) (omega arith)))
          (subst₂ (λ i t. probe i (memory env s₀ (suc t)) ≡ hit r) (onwards d).0 (onwards d).1
            found)

  module _ (safe : (i : ℕ) (s : S) → i < n → probe i s ≢ bad) (j : ℕ) (ltj : j < n)
      (there : (u : ℕ) → (r : R) × (probe j (memory env s₀ (suc u)) ≡ hit r)) where
    -- The scan returns, with the find of a buffer `k`.
    abbrev Finds : ℕ → ℕ → ℕ → (ℕ → Type 0) → Type κ
    Finds fuel t i W =
        (r : R) × (u k : ℕ) × (k < n)
        × W k
        × (probe k (memory env s₀ (suc u)) ≡ hit r)
        × (scan env n probe fuel t i (memory env s₀ t) ≡ done r)

    scan_ahead : (fuel t i : ℕ) → i ≤ j → j < fuel + i → Finds fuel t i (λ k. (i ≤ k) × (k ≤ j))
    unfolding memory
    scan_ahead zero t i le lt = absurd (omega arith)
    scan_ahead (suc fuel) t i le lt = elim (Probe-cases (probe i (env t (memory env s₀ t)))) [
      | inl (r, e) ↦
          (r, t, i, omega arith, (omega arith, le), e, scan_hit fuel t i _ (omega arith) e)
      | inr (inl e) ↦
          let further : i ≢ j = λ same. ground (arith, there t, same) in
          let (r, u, k, ltk, w, found, ret) =
            scan_ahead fuel (suc t) (suc i) (omega arith) (omega arith) in
          (r, u, k, ltk, (omega arith, w.1), found, scan_miss fuel t i _ (omega arith) e ∙ ret)
      | inr (inr e) ↦ absurd (safe i _ (omega arith) e)
    ]

    scan_behind :
        (fuel t i : ℕ)
        → j < i
        → i ≤ n
        → n + j + 1 < fuel + i
        → Finds fuel t i (λ k. (i ≤ k) ⊎ (k ≤ j))
    unfolding memory
    scan_behind zero t i lt le h = absurd (omega arith)
    scan_behind (suc fuel) t i lt le h = elim (dec_lt i n) [
      | no ge ↦
          let (r, u, k, ltk, w, found, ret) = scan_ahead fuel t 0 (omega arith) (omega arith) in
          (r, u, k, ltk, inr w.1, found, scan_end fuel t i _ (omega arith) ∙ ret)
      | yes inside ↦ elim (Probe-cases (probe i (env t (memory env s₀ t)))) [
        | inl (r, e) ↦ (r, t, i, inside, inl (omega arith), e, scan_hit fuel t i _ inside e)
        | inr (inl e) ↦
            let (r, u, k, ltk, w, found, ret) =
              scan_behind fuel (suc t) (suc i) (omega arith) inside (omega arith) in
            (r, u, k, ltk, omega arith, found, scan_miss fuel t i _ inside e ∙ ret)
        | inr (inr e) ↦ absurd (safe i _ inside e)
      ]
    ]

    -- If the probe of buffer `j` finds something at every look, the scan returns within two rounds,
    -- and with the find of a buffer that it comes to no later than to `j`.
    pub scan_total : (fuel t i : ℕ) → i ≤ n → n + n < fuel → Finds fuel t i (λ k. Before i k j)
    scan_total fuel t i le enough = elim (dec_lt j i) [
      | yes behind ↦
          let (r, u, k, ltk, w, found, ret) = scan_behind fuel t i behind le (omega arith) in
          (r, u, k, ltk, inr (behind, w), found, ret)
      | no ahead ↦
          let (r, u, k, ltk, w, found, ret) = scan_ahead fuel t i (omega arith) (omega arith) in
          (r, u, k, ltk, inl w, found, ret)
    ]

-- Scans with the same probes return the same.
pub scan_cong {ℓ κ} :
    {S : Type ℓ} {R : Type κ} (env : Env S) (n : ℕ) (p q : ℕ → S → Probe R)
    → ((i : ℕ) (s : S) → i < n → p i s ≡ q i s)
    → (fuel t i : ℕ) (s : S) → scan env n p fuel t i s ≡ scan env n q fuel t i s
unfolding scan
scan_cong env n p q same zero t i s = refl
scan_cong env n p q same (suc fuel) t i s = elim (dec_lt i n) [
  | no ge ↦ ground (arith, scan_cong env n p q same fuel t 0 s)
  | yes lt ↦ elim (Probe-cases (p i (env t s))) [
    | inl (r, e) ↦ ground (arith, same i (env t s))
    | inr (inl e) ↦
        ground (arith, same i (env t s), scan_cong env n p q same fuel (suc t) (suc i) (env t s))
    | inr (inr e) ↦ ground (arith, same i (env t s))
  ]
]
