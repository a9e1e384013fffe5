-- ===== src/ClientServer/Server.antt =====
-- When a server of benchmarks/client_server.c ends, whatever the order in which the messages of its clients
-- arrive.
use ssmp.Base.{
  ℕ, suc, ◌+◌, ◌-◌, ◌^◌, ◌≤◌, ◌<◌, ◌≡◌, ◌≢◌, ◌⊎◌, inl, inr, arith, refl, sym, ap, subst, ◌∙◌, List,
  [], ◌∷◌, length, map, if◌then◌else◌, ◌==◌, ltb, ℕ_discrete,
}
use ssmp.Base.Outcome.{done}
use ssmp.Bank.{u32}
use ssmp.ClientServer.{server_loop}
use ssmp.ClientServer.Heard.{Ends, at_last, not_yet}

-- A message that arrives: who sent it, and its w0.
pub record Arrival : Type 0 where
  pub sender : ℕ
  pub w0 : ℕ

abbrev pub values : List Arrival → List ℕ
values xs = map (λ a. a.w0) xs

-- what has come from `c`, in its order
unfoldable pub from : ℕ → List Arrival → List ℕ
from c [] = []
from c (a ∷ xs) = if a.sender == c then a.w0 ∷ from c xs else from c xs

-- how many are below `lim`
unfoldable pub smalls : ℕ → List ℕ → ℕ
smalls lim [] = 0
smalls lim (w ∷ ws) = if ltb w lim then suc (smalls lim ws) else smalls lim ws

-- Each process has nothing more to say, or ends with a message below `lim`.
unfoldable pub Complete : (lim : ℕ) → List Arrival → Type 0
Complete lim xs = (c : ℕ) → (from c xs ≡ []) ⊎ Ends lim (from c xs)

module _ (lim : ℕ) where
  pub smalls-Ends : (ws : List ℕ) → Ends lim ws → smalls lim ws ≡ 1
  unfolding smalls
  smalls-Ends _ (at_last lt) = ground arith
  smalls-Ends _ (not_yet le e) = ground (arith, smalls-Ends _ e)

  pub from_head :
      (a : Arrival) (xs : List Arrival) → from a.sender (a ∷ xs) ≡ a.w0 ∷ from a.sender xs
  unfolding from
  from_head a xs = ground arith

  pub from_other :
      (a : Arrival) (xs : List Arrival) (c : ℕ) → a.sender ≢ c → from c (a ∷ xs) ≡ from c xs
  unfolding from
  from_other a xs c ne = ground arith

  smalls-from : (c : ℕ) (xs : List Arrival) → smalls lim (from c xs) ≤ smalls lim (values xs)
  unfolding smalls from
  smalls-from c [] = omega arith
  smalls-from c (a ∷ xs) = ground (arith, smalls-from c xs)

  Ends-head :
      (w : ℕ) (ws : List ℕ)
      → Ends lim (w ∷ ws)
      → ((w < lim) × (ws ≡ [])) ⊎ ((lim ≤ w) × Ends lim ws)
  Ends-head w _ (at_last lt) = inl (lt, refl)
  Ends-head w _ (not_yet le e) = inr (le, e)

  -- what the head of the arrivals is to its sender
  head_of :
      (a : Arrival) (xs : List Arrival)
      → Complete lim (a ∷ xs)
      → ((a.w0 < lim) × (from a.sender xs ≡ [])) ⊎ ((lim ≤ a.w0) × Ends lim (from a.sender xs))
  unfolding Complete
  head_of a xs complete = elim (complete a.sender) [
    | inl nothing ↦
        let impossible : a.w0 ∷ from a.sender xs ≡ [] = sym (from_head a xs) ∙ nothing in
        absurd (cc)
    | inr ends ↦ Ends-head a.w0 (from a.sender xs) (subst (Ends lim) (from_head a xs) ends)
  ]

  Complete-tail : (a : Arrival) (xs : List Arrival) → Complete lim (a ∷ xs) → Complete lim xs
  unfolding Complete
  Complete-tail a xs complete c = elim (ℕ_discrete a.sender c) [
    | yes here ↦
        subst (λ x. (from x xs ≡ []) ⊎ Ends lim (from x xs)) here
          (elim (head_of a xs complete) [
            | inl (lt, nothing) ↦ inl nothing
            | inr (le, ends) ↦ inr ends
          ])
    | no elsewhere ↦
        subst (λ ws. (ws ≡ []) ⊎ Ends lim ws) (from_other a xs c elsewhere) (complete c)
  ]

  -- While a message is to come, one below `lim` is to come.
  some_small :
      (a : Arrival) (xs : List Arrival) → Complete lim (a ∷ xs) → 1 ≤ smalls lim (values (a ∷ xs))
  unfolding Complete
  some_small a xs complete = elim (complete a.sender) [
    | inl nothing ↦
        let impossible : a.w0 ∷ from a.sender xs ≡ [] = sym (from_head a xs) ∙ nothing in
        absurd (cc)
    | inr ends ↦
        omega (arith, smalls-Ends (from a.sender (a ∷ xs)) ends, smalls-from a.sender (a ∷ xs))
  ]

  smalls_below : (w : ℕ) (ws : List ℕ) → w < lim → smalls lim (w ∷ ws) ≡ suc (smalls lim ws)
  unfolding smalls
  smalls_below w ws lt = ground arith

  smalls_above : (w : ℕ) (ws : List ℕ) → lim ≤ w → smalls lim (w ∷ ws) ≡ smalls lim ws
  unfolding smalls
  smalls_above w ws le = ground arith

  loop_last :
      (w n recved : ℕ) (ws : List ℕ)
      → w < lim
      → n ≡ 1
      → server_loop lim n recved (w ∷ ws) ≡ done (recved + 1, ws)
  unfolding server_loop
  loop_last w n recved ws lt e = ground arith

  loop_small :
      (w n recved : ℕ) (ws : List ℕ)
      → w < lim
      → 1 < n
      → n < 2 ^ 32
      → server_loop lim n recved (w ∷ ws) ≡ server_loop lim (n - 1) (recved + 1) ws
  unfolding server_loop
  loop_small w n recved ws lt more small =
      let e : u32 (n + 2 ^ 32 - 1) ≡ n - 1 = omega arith in
      ground (arith, ap (λ k. server_loop lim k (recved + 1) ws) e)

  loop_large :
      (w n recved : ℕ) (ws : List ℕ)
      → lim ≤ w
      → server_loop lim n recved (w ∷ ws) ≡ server_loop lim n (recved + 1) ws
  unfolding server_loop
  loop_large w n recved ws le = ground arith

  pub smalls_none : smalls lim [] ≡ 0
  unfolding smalls
  smalls_none = refl

  none_left : (xs : List Arrival) → Complete lim xs → smalls lim (values xs) ≡ 0 → xs ≡ []
  none_left [] complete count = refl
  none_left (a ∷ xs) complete count = absurd (omega (arith, some_small a xs complete, count))

  -- The server takes every message, and ends with the last.
  pub server_loop_all :
      (n recved : ℕ) (xs : List Arrival)
      → Complete lim xs
      → smalls lim (values xs) ≡ n
      → 0 < n
      → n < 2 ^ 32
      → server_loop lim n recved (values xs) ≡ done (recved + length xs, [])
  server_loop_all n recved [] complete count pos small = absurd (omega (arith, smalls_none, count))
  server_loop_all n recved (a ∷ xs) complete count pos small =
      let tail : Complete lim xs = Complete-tail a xs complete in
      let onward : (recved + 1) + length xs ≡ recved + length (a ∷ xs) = omega arith in
      elim (head_of a xs complete) [
        | inl (lt, nothing) ↦
            let one_less : smalls lim (values xs) ≡ n - 1 =
              omega (arith, count, smalls_below a.w0 (values xs) lt) in
            elim (ℕ_discrete n 1) [
              | yes last ↦
                  let end : xs ≡ [] = none_left xs tail (omega (arith, one_less, last)) in
                  subst
                    (λ ys.
                      server_loop lim n recved (a.w0 ∷ values ys)
                      ≡ done (recved + length (a ∷ ys), []))
                    (sym end) (loop_last a.w0 n recved [] lt last)
              | no more ↦
                  loop_small a.w0 n recved (values xs) lt (omega arith) small
                  ∙ server_loop_all (n - 1) (recved + 1) xs tail one_less (omega arith)
                      (omega arith)
                  ∙ ap (λ k. done (k, [])) onward
            ]
        | inr (le, ends) ↦
            loop_large a.w0 n recved (values xs) le
            ∙ server_loop_all n (recved + 1) xs tail
                (sym (smalls_above a.w0 (values xs) le) ∙ count) pos small
            ∙ ap (λ k. done (k, [])) onward
      ]
