-- ===== src/Slot/Invariant/Defs.antt =====
-- The invariant of a buffer of src/platform/generic/ssmp_platf.c when the word with the state is stored
-- last.
use ssmp.Base.{◌⊎◌, inl, inr, ℕ, ◌+◌, ◌≤◌, ◌<◌, ◌≡◌, refl, arith, Bool, if◌then◌else◌, ◌==◌, ltb}
use ssmp.Slot.{Stage, away, looking, moving, Slot}
use ssmp.Slot.Words.{seen_word}

abbrev pub moved : Stage → ℕ
moved away = 0
moved looking = 0
moved (moving k) = k

-- whether the sender has words still to store, of `d`
abbrev pub storing : ℕ → Stage → ℕ
storing d away = 0
storing d looking = 0
storing d (moving k) = if ltb k d then 1 else 0

abbrev pub loading : Stage → ℕ
loading away = 0
loading looking = 0
loading (moving k) = 1

-- whether the buffer has a message that is not yet received
abbrev pub holds : Slot → ℕ
holds s = if loading s.receiver == 1 then 1 else if s.flag == 1 then 1 else 0

-- `memcpy` stores every word, and the one with the state last.
pub record IsLast (d : ℕ) (at : ℕ → ℕ) : Type 0 where
  pub nonempty : 0 < d
  pub inside : (k : ℕ) → k < d → at k < d
  pub every : (j : ℕ) → j < d → (k : ℕ) × (k < d) × (at k ≡ j)
  pub last : (k : ℕ) → k < d → at k + 1 ≡ d → k + 1 ≡ d

-- the state while a message is copied out of the buffer
abbrev pub claimed : Bool → ℕ
claimed atomic = if atomic then 2 else 1

pub record Inv (atomic : Bool) (d : ℕ) (at : ℕ → ℕ) (s : Slot) : Type 0 where
  pub one : storing d s.sender + loading s.receiver ≤ 1
  pub taken : storing d s.sender ≡ 1 → s.flag ≡ (if atomic then 2 else 0)
  pub held : loading s.receiver ≡ 1 → s.flag ≡ (if atomic then 2 else 1)
  pub settled : storing d s.sender + loading s.receiver ≡ 0 → s.flag ≤ 1
  pub sender_within : moved s.sender ≤ d
  pub receiver_within : moved s.receiver ≤ d
  pub counts : s.sent ≡ s.received + holds s
  pub stored : (k : ℕ) → k < moved s.sender → s.buf (at k) ≡ s.outgoing (at k)
  pub loaded :
      (j : ℕ) → j < moved s.receiver → s.incoming j ≡ seen_word d (claimed atomic) j (s.buf j)
  pub full : (j : ℕ) → holds s ≡ 1 → j < d → s.buf j ≡ s.log s.received j
  pub history :
      (i j : ℕ) → i < s.received → j < d → s.got i j ≡ seen_word d (claimed atomic) j (s.log i j)

pub loading-moved : (p : Stage) (j : ℕ) → j < moved p → loading p ≡ 1
loading-moved away j lt = absurd (omega arith)
loading-moved looking j lt = absurd (omega arith)
loading-moved (moving k) j lt = refl

pub storing_small : (d : ℕ) (p : Stage) → storing d p ≤ 1
storing_small d away = omega arith
storing_small d looking = omega arith
storing_small d (moving k) = ground arith

pub loading_small : (p : Stage) → loading p ≤ 1
loading_small away = omega arith
loading_small looking = omega arith
loading_small (moving k) = omega arith

pub Stage-cases : (p : Stage) → (p ≡ away) ⊎ (p ≡ looking) ⊎ ((k : ℕ) × (p ≡ moving k))
Stage-cases away = inl refl
Stage-cases looking = inr (inl refl)
Stage-cases (moving k) = inr (inr (k, refl))

pub holds_small : (s : Slot) → holds s ≤ 1
holds_small s = ground arith
