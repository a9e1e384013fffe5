-- ===== src/Poll/Await.antt =====
-- What a spin on one test does.
use ssmp.Base.{
  ℕ, zero, suc, ◌+◌, ◌<◌, ◌≤◌, ◌≡◌, ◌⊎◌, Option, none, some, arith, Option-cases, inl, inr, subst,
  refl, ap, if◌then◌else◌, ◌==◌, ℕ_discrete,
}
use ssmp.Base.Outcome.{done, spinning}
use ssmp.Poll.{Env, memory, await}

module _ {ℓ κ} {S : Type ℓ} {R : Type κ} (env : Env S) (s₀ : S) (try : S → Option R) where
  -- It returns what the test gives at some look.
  pub await_sound :
      (fuel t : ℕ) {r : R}
      → await env try fuel t (memory env s₀ t) ≡ done r
      → (u : ℕ) × (try (memory env s₀ (suc u)) ≡ some r)
  unfolding await memory
  await_sound zero t h = absurd (cc)
  await_sound (suc fuel) t h = elim (Option-cases (try (env t (memory env s₀ t)))) [
    | inr (r', e) ↦ (t, ground arith)
    | inl e ↦ await_sound fuel (suc t) (ground arith)
  ]

  -- It returns if the test succeeds at the `k`-th look from now and the fuel lasts so long.
  pub await_total :
      (k fuel t : ℕ) (r : R)
      → k < fuel
      → try (memory env s₀ (suc (t + k))) ≡ some r
      → (r' : R) × (await env try fuel t (memory env s₀ t) ≡ done r')
  unfolding await memory
  await_total k zero t r lt h = absurd (omega arith)
  await_total zero (suc fuel) t r lt h =
      let same : t + 0 ≡ t = omega arith in
      let now : try (env t (memory env s₀ t)) ≡ some r =
        subst (λ u. try (memory env s₀ (suc u)) ≡ some r) same h in
      (r, ground arith)
  await_total (suc k) (suc fuel) t r lt h = elim (Option-cases (try (env t (memory env s₀ t)))) [
    | inr (r', e) ↦ (r', ground arith)
    | inl e ↦
        let same : t + suc k ≡ suc t + k = omega arith in
        let (r', ret) =
          await_total k fuel (suc t) r (omega arith)
            (subst (λ u. try (memory env s₀ (suc u)) ≡ some r) same h) in
        (r', ground arith)
  ]

  -- It never returns if the test fails at every look.
  pub await_never :
      (fuel t : ℕ)
      → ((u : ℕ) → try (memory env s₀ (suc u)) ≡ none)
      → await env try fuel t (memory env s₀ t) ≡ spinning
  unfolding await memory
  await_never zero t fails = refl
  await_never (suc fuel) t fails =
      let rest = await_never fuel (suc t) fails in ground (arith, fails t)

-- It returns what the test gives after the one change that the others make, at the `k`-th look, if
-- the test fails before it or the change does nothing.
pub await_change {ℓ κ} :
    {S : Type ℓ} {R : Type κ} (change : S → S) (try : S → Option R) (k fuel t : ℕ) (s : S) (r : R)
    → t ≤ k
    → k < fuel + t
    → (try s ≡ none) ⊎ (change s ≡ s)
    → try (change s) ≡ some r
    → await (λ u s. if u == k then change s else s) try fuel t s ≡ done r
unfolding await
await_change change try k zero t s r le lt or h = absurd (omega arith)
await_change change try k (suc fuel) t s r le lt or h = elim (ℕ_discrete t k) [
  | yes now ↦ ground (arith, now)
  | no later ↦ elim or [
    | inl miss ↦
        let rest =
          await_change change try k fuel (suc t) s r (omega arith) (omega arith) (inl miss) h in
        ground (arith, rest)
    | inr same ↦ ground (arith, ap try same)
  ]
]

-- It returns what the test gives at the next look, if the test succeeds then.
pub await_now {ℓ κ} :
    {S : Type ℓ} {R : Type κ} (env : Env S) (try : S → Option R) (fuel t : ℕ) (s : S) (r : R)
    → try (env t s) ≡ some r
    → await env try (suc fuel) t s ≡ done r
unfolding await
await_now env try fuel t s r e = ground arith
