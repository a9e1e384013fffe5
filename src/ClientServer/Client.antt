-- ===== src/ClientServer/Client.antt =====
-- What each server hears from a client of benchmarks/client_server.c.
use native.Mathlib.Nat.{mod-eq_of_lt}
use ssmp.Base.{
  ℕ, zero, suc, ◌+◌, ◌-◌, ◌*◌, ◌^◌, ◌≤◌, ◌<◌, ◌≡◌, ◌≢◌, ◌⊎◌, inl, inr, arith, refl, sym, ap, subst,
  ◌∙◌, false, not, List, [], ◌∷◌, some, get_elem?, length, if◌then◌else◌, ◌==◌, ℕ_discrete, dec_lt,
}
use ssmp.Base.Numbers.{times_injective}
use ssmp.Base.Outcome.{done}
use ssmp.Bank.{u32}
use ssmp.ClientServer.{Sent, equals, client_loop, client}
use ssmp.ClientServer.Heard.{
  heard, complaints, Ends, at_last, not_yet, Hears, heard_here, heard_elsewhere,
}

-- the next index
abbrev next : (num_dsl i : ℕ) → ℕ
next num_dsl i = if u32 (i + 1) == num_dsl then 0 else u32 (i + 1)

module _ (per_core num_dsl : ℕ) (seq : List ℕ) (pos : 0 < per_core) (small : num_dsl < 256)
    (servers : (j : ℕ) → j < num_dsl → get_elem? seq j ≡ some (j * per_core)) where
  next_lem :
      (p : ℕ)
      → p < num_dsl
      → ((p + 1 ≡ num_dsl) × (next num_dsl p ≡ 0)) ⊎ ((p + 1 < num_dsl) × (next num_dsl p ≡ p + 1))
  next_lem p lt =
      let small_p : u32 (p + 1) ≡ p + 1 = omega arith in
      elim (ℕ_discrete (p + 1) num_dsl) [
        | yes e ↦ inl (e, ground arith)
        | no ne ↦ inr (omega arith, ground arith)
      ]

  client_loop_step :
      (after : ℕ → ℕ) (n q to : ℕ) (rest : List Sent)
      → q < num_dsl
      → client_loop after seq num_dsl n (q * per_core) (next num_dsl q) ≡ done rest
      → client_loop after seq num_dsl (suc n) to q
        ≡ done (record { to = to; w0 = u32 n; complains = not (equals (after (u32 n)) n) } ∷ rest)
  unfolding client_loop
  client_loop_step after n q to rest lt e = ground (arith, servers q lt, e)

  -- a message for the server, when its turn has come
  now-Hears :
      (n : ℕ) (ws : List ℕ)
      → suc n ≤ 2 ^ 31
      → Hears num_dsl n (num_dsl - 1) ws
      → 0 < num_dsl
      → Hears num_dsl (suc n) 0 (u32 n ∷ ws)
  now-Hears n ws lt (none_left, some_left) some_dsl =
      let same : u32 n ≡ n = mod-eq_of_lt {n = n} {m = 2 ^ 32} (omega arith) in
      (
        λ le. absurd (omega arith),
        λ below. elim (dec_lt n num_dsl) [
          | yes last ↦
              let nothing : ws ≡ [] = none_left (omega arith) in
              subst (λ x. Ends num_dsl (u32 n ∷ x)) (sym nothing) (at_last (omega (arith, same)))
          | no more ↦ not_yet (omega (arith, same)) (some_left (omega arith))
        ],
      )

  -- before its turn
  later-Hears : (n k : ℕ) (ws : List ℕ) → Hears num_dsl n k ws → Hears num_dsl (suc n) (suc k) ws
  later-Hears n k ws (none_left, some_left) =
      (λ le. none_left (omega arith), λ below. some_left (omega arith))

  next-lt : (p : ℕ) → p < num_dsl → next num_dsl p < num_dsl
  next-lt p lt = omega (arith, next_lem p lt)

  -- After its turn a server is as far ahead as it can be.
  full_turn :
      (p s : ℕ)
      → p < num_dsl
      → (p + 0 ≡ s) ⊎ (p + 0 ≡ s + num_dsl)
      → s < num_dsl
      → (p ≡ s)
        × ((next num_dsl p + (num_dsl - 1) ≡ s) ⊎ (next num_dsl p + (num_dsl - 1) ≡ s + num_dsl))
  full_turn p s lt ahead lts = (omega arith, omega (arith, next_lem p lt))

  one_nearer :
      (p k s : ℕ)
      → p < num_dsl
      → s < num_dsl
      → suc k < num_dsl
      → (p + suc k ≡ s) ⊎ (p + suc k ≡ s + num_dsl)
      → (p ≢ s) × ((next num_dsl p + k ≡ s) ⊎ (next num_dsl p + k ≡ s + num_dsl))
  one_nearer p k s ltp lts ltk ahead = (omega arith, omega (arith, next_lem p ltp))

  content :
      (after : ℕ → ℕ)
      → ((w : ℕ) → after w ≡ w)
      → (n : ℕ) → n < 2 ^ 31
      → not (equals (after (u32 n)) n) ≡ false
  unfolding equals
  content after same n lt =
      let e : after (u32 n) ≡ n = same (u32 n) ∙ mod-eq_of_lt {n = n} {m = 2 ^ 32} (omega arith) in
      ground (arith, e)

  quiet_step :
      (m : Sent) (ms : List Sent)
      → m.complains ≡ false
      → complaints ms ≡ 0
      → complaints (m ∷ ms) ≡ 0
  unfolding complaints
  quiet_step m ms e q = ground arith

  abbrev Run : (after : ℕ → ℕ) (n p k s : ℕ) → Type 0
  Run after n p k s =
      (ms : List Sent) × (client_loop after seq num_dsl n (p * per_core) (next num_dsl p) ≡ done ms)
      × (length ms ≡ n)
      × (complaints ms ≡ 0)
      × Hears num_dsl n k (heard (s * per_core) ms)

  step-Run :
      (after : ℕ → ℕ)
      → ((w : ℕ) → after w ≡ w)
      → (n p k k' s : ℕ) → suc n ≤ 2 ^ 31
      → p < num_dsl
      → ((m : Sent) (ms : List Sent)
          → m.to ≡ p * per_core
          → m.w0 ≡ u32 n
          → Hears num_dsl n k' (heard (s * per_core) ms)
          → Hears num_dsl (suc n) k (heard (s * per_core) (m ∷ ms)))
      → Run after n (next num_dsl p) k' s
      → Run after (suc n) p k s
  step-Run after same n p k k' s ltn ltp step (ms, run, count, quiet, hears) =
      let m : Sent = record {
        to = p * per_core;
        w0 = u32 n;
        complains = not (equals (after (u32 n)) n);
      } in
      (
        m ∷ ms,
        client_loop_step after n (next num_dsl p) (p * per_core) ms (next-lt p ltp) run,
        ap suc count,
        quiet_step m ms (content after same n (omega arith)) quiet,
        step m ms refl refl hears,
      )

  -- The client, when the message at hand goes to server `p` and the next one to server `s` is `k`
  -- messages ahead.
  client_loop_lem :
      (after : ℕ → ℕ)
      → ((w : ℕ) → after w ≡ w)
      → (n p k s : ℕ) → n ≤ 2 ^ 31
      → p < num_dsl
      → s < num_dsl
      → k < num_dsl
      → (p + k ≡ s) ⊎ (p + k ≡ s + num_dsl)
      → Run after n p k s
  unfolding client_loop complaints heard
  client_loop_lem after same zero p k s ltn ltp lts ltk ahead =
      ([], refl, refl, refl, (λ le. refl, λ lt. absurd (omega arith)))
  client_loop_lem after same (suc n) p zero s ltn ltp lts ltk ahead =
      let (here, ahead') = full_turn p s ltp ahead lts in
      step-Run after same n p 0 (num_dsl - 1) s ltn ltp
        (λ m ms to w0 hears.
          let to_here : m.to ≡ s * per_core = to ∙ ap (λ x. x * per_core) here in
          subst (Hears num_dsl (suc n) 0)
            (sym
              (heard_here m (s * per_core) ms to_here ∙ ap (λ w. w ∷ heard (s * per_core) ms) w0))
            (now-Hears n (heard (s * per_core) ms) ltn hears (omega arith)))
        (client_loop_lem after same n (next num_dsl p) (num_dsl - 1) s (omega arith) (next-lt p ltp)
          lts (omega arith) ahead')
  client_loop_lem after same (suc n) p (suc k) s ltn ltp lts ltk ahead =
      let (elsewhere, ahead') = one_nearer p k s ltp lts ltk ahead in
      step-Run after same n p (suc k) k s ltn ltp
        (λ m ms to w0 hears.
          let apart : m.to ≢ s * per_core =
            λ e. elsewhere (times_injective per_core p s pos (sym to ∙ e)) in
          subst (Hears num_dsl (suc n) (suc k)) (sym (heard_elsewhere m (s * per_core) ms apart))
            (later-Hears n k (heard (s * per_core) ms) hears))
        (client_loop_lem after same n (next num_dsl p) k s (omega arith) (next-lt p ltp) lts
          (omega arith) ahead')

  -- The first message goes to process 0, and so does the second.
  pub client_lem :
      (after : ℕ → ℕ)
      → ((w : ℕ) → after w ≡ w)
      → (num_msgs s : ℕ) → num_dsl < num_msgs
      → num_msgs ≤ 2 ^ 31
      → s < num_dsl
      → (ms : List Sent) × (client after seq num_dsl num_msgs ≡ done ms)
        × (length ms ≡ num_msgs)
        × (complaints ms ≡ 0)
        × Ends num_dsl (heard (s * per_core) ms)
  unfolding client
  client_lem after same zero s lt small_n lts = absurd (omega arith)
  client_lem after same (suc n) s lt small_n lts =
      let (ms, run, count, quiet, hears) =
        client_loop_lem after same n 0 s s (omega arith) (omega arith) lts lts
          (inl (omega arith)) in
      let m : Sent = record { to = 0; w0 = u32 n; complains = not (equals (after (u32 n)) n) } in
      let ends : Ends num_dsl (heard (s * per_core) ms) = hears.1 (omega arith) in
      (
        m ∷ ms,
        client_loop_step after n 0 0 ms (omega arith) run,
        ap suc count,
        quiet_step m ms (content after same n (omega arith)) quiet,
        elim (ℕ_discrete 0 (s * per_core)) [
          | yes here ↦
              let large : num_dsl ≤ u32 n =
                omega (arith, mod-eq_of_lt {n = n} {m = 2 ^ 32} (omega arith)) in
              subst (Ends num_dsl) (sym (heard_here m (s * per_core) ms here)) (not_yet large ends)
          | no elsewhere ↦
              subst (Ends num_dsl) (sym (heard_elsewhere m (s * per_core) ms elsewhere)) ends
        ],
      )

  -- The last server hears nothing if there are not more messages than servers.
  pub client_short :
      (after : ℕ → ℕ)
      → ((w : ℕ) → after w ≡ w)
      → (num_msgs : ℕ) → num_msgs ≤ num_dsl
      → 1 < num_dsl
      → (ms : List Sent) × (client after seq num_dsl num_msgs ≡ done ms)
        × (heard ((num_dsl - 1) * per_core) ms ≡ [])
  unfolding client client_loop heard
  client_short after same zero le two = ([], refl, refl)
  client_short after same (suc n) le two =
      let s : ℕ = num_dsl - 1 in
      let (ms, run, count, quiet, hears) =
        client_loop_lem after same n 0 s s (omega arith) (omega arith) (omega arith) (omega arith)
          (inl (omega arith)) in
      let m : Sent = record { to = 0; w0 = u32 n; complains = not (equals (after (u32 n)) n) } in
      (
        m ∷ ms,
        client_loop_step after n 0 0 ms (omega arith) run,
        heard_elsewhere m (s * per_core) ms (λ e.
              let zeroth : 0 ≡ s = times_injective per_core 0 s pos (omega (arith, e)) in
              omega arith)
            ∙ hears.0 (omega arith),
      )
