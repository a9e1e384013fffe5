-- ===== src/Startup/Partly.antt =====
-- Arrays of pointers that are set one after another.
use ssmp.Base.{
  ℕ, ◌+◌, ◌<◌, ◌≡◌, arith, List, Option, none, some, get_elem?, set, length, length-set,
  length-replicate, get_elem?-set_self, get_elem?-set_ne, get_elem?-replicate, replicate,
  if◌then◌else◌, ltb, ℕ_discrete, ◌∙◌, ap,
}

-- An array whose entries below `core` are those of a table, and whose other entries are not set.
abbrev pub Partly {ℓ} : {A : Type ℓ} → (n core : ℕ) → (ℕ → Option A) → List (Option A) → Type ℓ
Partly n core f xs =
    (length xs ≡ n) × ((j : ℕ) → j < n → get_elem? xs j ≡ some (if ltb j core then f j else none))

module _ {ℓ} {A : Type ℓ} (n : ℕ) (f : ℕ → Option A) (core : ℕ) (xs : List (Option A))
    (lt : core < n) (p : Partly n core f xs) where
  pub Partly-set : (v : Option A) → f core ≡ v → Partly n (core + 1) f (set xs core v)
  Partly-set v e = (
    length-set xs core v ∙ p.0,
    λ j ltj. elim (ℕ_discrete core j) [
      | yes same ↦ ground (
        arith,
        get_elem?-set_self xs core v,
        p.0,
        e,
        ap f same,
        ap (λ k. get_elem? (set xs core v) k) same,
      )
      | no ne ↦ ground (arith, get_elem?-set_ne xs {i = core} {j = j} v ne, p.1 j ltj)
    ],
  )

  pub Partly-skip : f core ≡ none → Partly n (core + 1) f xs
  Partly-skip e = (
    p.0,
    λ j ltj. elim (ℕ_discrete core j) [
      | yes same ↦ ground (arith, p.1 j ltj, e, ap f same)
      | no ne ↦ ground (arith, p.1 j ltj)
    ],
  )

pub Partly-none {ℓ} : {A : Type ℓ} (n : ℕ) (f : ℕ → Option A) → Partly n 0 f (replicate n none)
Partly-none n f =
    (length-replicate n none, λ j lt. get_elem?-replicate n none j lt ∙ ap some (unset j))
  where
    unset : (j : ℕ) → none ≡ (if ltb j 0 then f j else none)
    unset j = ground arith

pub Partly-all {ℓ} :
    {A : Type ℓ} (n : ℕ) (f : ℕ → Option A) (xs : List (Option A))
    → Partly n n f xs
    → (j : ℕ) → j < n
    → get_elem? xs j ≡ some (f j)
Partly-all n f xs p j lt = ground (arith, p.1 j lt)
