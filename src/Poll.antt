-- ===== src/Poll.antt =====
-- The two waiting loops that the ports of src/platform share: a spin on one test, and a scan of `n`
-- buffers that starts again at 0 when it comes to the end. Before each look at the memory the other
-- processes may change it: that is the argument `env`.
pub mod Await
pub mod Scan
use ssmp.Base.{ℕ, zero, suc, Option, none, some, true, false, ltb}
use ssmp.Base.Outcome.{Outcome, done, fault, spinning}

-- what the other processes do to the memory before the `t`-th look
abbrev pub Env {ℓ} : Type ℓ → Type ℓ
Env S = ℕ → S → S

pub data Probe {ℓ} (R : Type ℓ) : Type ℓ where
  hit : R → Probe R
  miss : Probe R
  bad : Probe R

module _ {ℓ} {S : Type ℓ} (env : Env S) where
  -- the memory before the `t`-th look, if nobody but the others writes to it
  unfoldable pub memory : S → ℕ → S
  memory s zero = s
  memory s (suc t) = env t (memory s t)

  -- `while (!try) pause;`
  unfoldable pub await {κ} : {R : Type κ} → (S → Option R) → ℕ → ℕ → S → Outcome R
  await try zero t s = spinning
  await try (suc fuel) t s =
      let s' = env t s in elim (try s') [ some r ↦ done r | none ↦ await try fuel (suc t) s' ]

  -- `while (1) { for (; i < n; i++) if (probe) return; i = 0; }`
  unfoldable pub scan {κ} : {R : Type κ} → ℕ → (ℕ → S → Probe R) → ℕ → ℕ → ℕ → S → Outcome R
  scan n probe zero t i s = spinning
  scan n probe (suc fuel) t i s = elim (ltb i n) [
    | true ↦
        let s' = env t s in
        elim (probe i s') [
          | hit r ↦ done r
          | miss ↦ scan n probe fuel (suc t) (suc i) s'
          | bad ↦ fault
        ]
    | false ↦ scan n probe fuel t 0 s
  ]
