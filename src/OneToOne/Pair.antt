-- ===== src/OneToOne/Pair.antt =====
-- A sender and a receiver of benchmarks/one2one.c, and of cs.c.
use ssmp.Base.{
  ℕ, zero, suc, ◌+◌, ◌-◌, ◌*◌, ◌^◌, ◌<◌, ◌≡◌, ◌≢◌, ◌≤◌, ◌⊎◌, inl, inr, dec_lt, arith, refl, ap, ◌∙◌,
  List, [], ◌∷◌,
}
use ssmp.Base.Outcome.{done}
use ssmp.OneToOne.{
  u32, widen, Sends, sender_loop, receiver_loop, receiver, cs_receiver_loop, cs_receiver,
}

-- the numbers from `i` on, `k` of them
unfoldable pub count_from : (k i : ℕ) → List ℕ
count_from zero i = []
count_from (suc k) i = i ∷ count_from k (i + 1)

sender_loop_lem :
    (after : ℕ → ℕ)
    → ((w : ℕ) → after w ≡ w)
    → (k i num_msgs fuel : ℕ) → i + k ≡ num_msgs
    → num_msgs < 2 ^ 32
    → k < fuel
    → sender_loop after fuel num_msgs i ≡ done (record { w0s = count_from k i; complaints = 0 })
unfolding sender_loop count_from
sender_loop_lem after same k i num_msgs zero e small lt = absurd (omega arith)
sender_loop_lem after same zero i num_msgs (suc fuel) e small lt = ground arith
sender_loop_lem after same (suc k) i num_msgs (suc fuel) e small lt =
    let next : u32 (i + 1) ≡ i + 1 = omega arith in
    let rest =
      sender_loop_lem after same k (i + 1) num_msgs fuel (omega arith) small (omega arith) in
    ground (arith, rest, same i, ap (sender_loop after fuel num_msgs) next)

receiver_more :
    (out i : ℕ) (ws : List ℕ)
    → i ≢ out
    → i + 1 < 2 ^ 32
    → receiver_loop out i 0 (i ∷ ws) ≡ receiver_loop out (i + 1) 0 ws
unfolding receiver_loop
receiver_more out i ws ne small =
    let next : u32 (i + 1) ≡ i + 1 = omega arith in
    ground (arith, ne, ap (λ n. receiver_loop out n 0 ws) next)

receiver_last :
    (out i : ℕ) (ws : List ℕ)
    → i ≡ out
    → out + 1 < 2 ^ 31
    → receiver_loop out i 0 (i ∷ ws)
      ≡ done (record { total_samples = out + 1; complaints = 0; later = ws })
unfolding receiver_loop widen
receiver_last out i ws e small =
    let same : u32 (i + 1) ≡ out + 1 = omega arith in ground (arith, e, same)

receiver_loop_lem :
    (k i out : ℕ)
    → i + k ≡ out
    → out + 1 < 2 ^ 31
    → receiver_loop out i 0 (count_from (suc k) i)
      ≡ done (record { total_samples = out + 1; complaints = 0; later = [] })
unfolding count_from
receiver_loop_lem zero i out e small = receiver_last out i [] (omega arith) small
receiver_loop_lem (suc k) i out e small =
    receiver_more out i (count_from (suc k) (i + 1)) (omega arith) (omega arith)
    ∙ receiver_loop_lem k (i + 1) out (omega arith) small

cs_more :
    (out i : ℕ) (ws : List ℕ) → i ≢ out → cs_receiver_loop out (i ∷ ws) ≡ cs_receiver_loop out ws
unfolding cs_receiver_loop
cs_more out i ws ne = ground (arith, ne)

-- twice a number of messages, as cs.c computes it
abbrev twice : ℕ → ℕ
twice n = widen (u32 (2 * n))

cs_last :
    (out i : ℕ) (ws : List ℕ)
    → i ≡ out
    → out + 1 < 2 ^ 32
    → cs_receiver_loop out (i ∷ ws) ≡ done (twice (out + 1), ws)
unfolding cs_receiver_loop
cs_last out i ws e small =
    let same : u32 (i + 1) ≡ out + 1 = omega arith in
    ground (arith, e, ap (λ n. widen (u32 (2 * n))) same)

cs_receiver_loop_lem :
    (k i out : ℕ)
    → i + k ≡ out
    → out + 1 < 2 ^ 32
    → cs_receiver_loop out (count_from (suc k) i) ≡ done (twice (out + 1), [])
unfolding count_from
cs_receiver_loop_lem zero i out e small = cs_last out i [] (omega arith) small
cs_receiver_loop_lem (suc k) i out e small =
    cs_more out i (count_from (suc k) (i + 1)) (omega arith)
    ∙ cs_receiver_loop_lem k (i + 1) out (omega arith) small

twice-cases :
    (n : ℕ)
    → n < 2 ^ 31
    → ((n < 2 ^ 30) × (twice n ≡ 2 * n)) ⊎ ((2 ^ 30 ≤ n) × (twice n ≡ 2 * n + (2 ^ 64 - 2 ^ 32)))
unfolding widen
twice-cases n lt =
    let same : u32 (2 * n) ≡ 2 * n = omega arith in
    elim (dec_lt n (2 ^ 30)) [
      | yes few ↦ inl (few, ground (arith, same))
      | no many ↦ inr (omega arith, ground (arith, same))
    ]

-- For 1 to 2^31 - 1 messages, if the w0 of a message is after the send, or after the reply, what it was: a
-- sender of one2one.c ends without a complaint, and a receiver that gets its messages in their order
-- counts all of them, without a complaint, and ends with the last. So does a receiver of cs.c: what it
-- counts is twice as many for fewer than 2^30 messages, and for more it is 2^32 less than that, as a
-- negative 64-bit number, because it is computed in 32 bits.
pub receiver-sender :
    (after : ℕ → ℕ)
    → ((w : ℕ) → after w ≡ w)
    → (num_msgs fuel : ℕ) → 0 < num_msgs
    → num_msgs < 2 ^ 31
    → num_msgs < fuel
    → (s : Sends) × (sender_loop after fuel num_msgs 0 ≡ done s)
      × (s.complaints ≡ 0)
      × (receiver num_msgs s.w0s
          ≡ done (record { total_samples = num_msgs; complaints = 0; later = [] }))
      × (count : ℕ) × (cs_receiver num_msgs s.w0s ≡ done (count, []))
      × (((num_msgs < 2 ^ 30) × (count ≡ 2 * num_msgs))
          ⊎ ((2 ^ 30 ≤ num_msgs) × (count ≡ 2 * num_msgs + (2 ^ 64 - 2 ^ 32))))
unfolding receiver cs_receiver
receiver-sender after same zero fuel pos small lt = absurd (omega arith)
receiver-sender after same (suc k) fuel pos small lt =
    let last : u32 (suc k + 2 ^ 32 - 1) ≡ k = omega arith in
    let count : k + 1 ≡ suc k = omega arith in
    (
      record { w0s = count_from (suc k) 0; complaints = 0 },
      sender_loop_lem after same (suc k) 0 (suc k) fuel (omega arith) (omega arith) lt,
      refl,
      ap (λ out. receiver_loop out 0 0 (count_from (suc k) 0)) last
          ∙ receiver_loop_lem k 0 k (omega arith) (omega arith)
          ∙ ap (λ n. done (record { total_samples = n; complaints = 0; later = [] })) count,
      twice (suc k),
      ap (λ out. cs_receiver_loop out (count_from (suc k) 0)) last
          ∙ cs_receiver_loop_lem k 0 k (omega arith) (omega arith)
          ∙ ap (λ n. done (twice n, [])) count,
      twice-cases (suc k) small,
    )
