-- ===== src/Bank/Lost.antt =====
-- A server of benchmarks/bank.c with its buffers: a round of the loop of `bank_dsl` on the generic port,
-- and a request that the server leaves behind when it ends.
mod Tests
use ssmp.Base.{
  ℕ, zero, suc, ◌+◌, ◌%◌, ◌^◌, ◌<◌, ◌≡◌, ◌≢◌, refl, arith, Bool, true, false, List, none, some,
  get_or, sym, ap, ◌∙◌, subst, if◌then◌else◌, ◌==◌, Option-cases, inl, inr,
}
use ssmp.Base.Outcome.{Outcome, done, spinning, ◌>>=◌, >>=_returns}
use ssmp.Message.{Msg, Slots, ssmp_buf_empty, ssmp_buf_messg, state, set_state, acquire}
use ssmp.Message.Laws.{Received, Acquired, acquire_sound, words-set_state}
use ssmp.ColorBuf.{ColorBuf, IsFilled}
use ssmp.Poll.{Env, memory, hit, miss, await}
use ssmp.Poll.Scan.{scan_first}
use ssmp.Poll.Await.{await_never}
use ssmp.Generic.{advance_start, color_probe, start_probe, recv_color_start, send}
use ssmp.Generic.Fair.{color_probe-none, start_probe_hit, start_probe_total}
use ssmp.Bank.{Request, Served, serve}

-- the words w0, w1 and w2 of a message
unfoldable pub request_of : Msg → Request
request_of m = record {
  op = get_or m.words 0 0;
  acc = get_or m.words 1 0;
  amount = get_or m.words 2 0;
}

module _ (atomic : Bool) where
  -- one round of the loop of `bank_dsl`, up to its reply: what the request leaves, the buffers, and
  -- `start_recv_from`
  unfoldable pub dsl_round :
      Env Slots → ColorBuf → (fuel start : ℕ) → Slots → List ℕ → Outcome (Served × Slots × ℕ)
  unfolding request_of
  dsl_round env cbuf fuel start slots accs = do
    (m, slots', next) ← recv_color_start atomic env cbuf fuel start slots
    s ← serve accs (request_of m)
    done (s, slots', next)

  acquire-none : (s : Slots) (p old : ℕ) → state (s p) ≢ old → acquire atomic s p old ≡ none
  acquire-none s p old ne = elim (Option-cases (acquire atomic s p old)) [
    | inl e ↦ e
    | inr (t, e) ↦ absurd (ne (acquire_sound atomic s p old e).was)
  ]

  -- A send to a buffer that nobody empties waits for ever.
  send_never :
      (env : Env Slots) (fuel to : ℕ) (msg : Msg) (s : Slots)
      → ((u : ℕ) → state (memory env s (suc u) to) ≢ ssmp_buf_empty)
      → send atomic env fuel to msg s ≡ spinning
  unfolding send memory
  send_never env fuel to msg s full =
      rw
        (await_never env s (λ s. acquire atomic s to ssmp_buf_empty) fuel 0
          (λ u. acquire-none (memory env s (suc u)) to ssmp_buf_empty (full u)))
        refl

  start_probe-miss :
      (cbuf : ColorBuf) (peer : ℕ → ℕ)
      → IsFilled cbuf peer
      → (i : ℕ) (s : Slots) → i < cbuf.num_ues
      → state (s (peer i)) ≢ ssmp_buf_messg
      → start_probe atomic cbuf i s ≡ miss
  unfolding start_probe
  start_probe-miss cbuf peer filled i s lt ne = ground (
    arith,
    color_probe-none atomic cbuf peer filled i s lt (acquire-none s (peer i) ssmp_buf_messg ne),
  )

serve_exit :
    (accs : List ℕ) (r : Request)
    → 2 < r.op
    → (s : Served) × (serve accs r ≡ done s) × (s.balances ≡ accs) × (s.stop ≡ true)
unfolding serve
serve_exit accs r op =
    (record { balances = accs; reply = none; stop = true }, ground (arith, op), refl, refl)

module _ (atomic : Bool) (cbuf : ColorBuf) (peer : ℕ → ℕ) (filled : IsFilled cbuf peer)
    (env : Env Slots) (s₀ : Slots) (fuel start d : ℕ) (accs : List ℕ) where
  -- the buffers when the server looks at the entry that is `d` after its first
  abbrev seen : ℕ → Slots
  seen k = memory env s₀ (suc k)

  round_first :
      d < fuel
      → start + d < cbuf.num_ues
      → ((k : ℕ) → k < d → state (seen k (peer (start + k))) ≢ ssmp_buf_messg)
      → state (seen d (peer (start + d))) ≡ ssmp_buf_messg
      → (m : Msg) × (s : Slots) × (next : ℕ) × (recv_color_start atomic env cbuf fuel start s₀
          ≡ done (m, s, next))
        × Received (seen d) (peer (start + d)) (peer (start + d) % 2 ^ 8) m s
  unfolding recv_color_start memory
  round_first enough inside none_before there =
      let now : (k : ℕ) → 0 + k ≡ k = λ k. omega arith in
      let ((m, s, next), found) =
        start_probe_total atomic cbuf peer filled (start + d) (seen d) inside there in
      (
        m,
        s,
        next,
        scan_first env s₀ cbuf.num_ues (start_probe atomic cbuf) d fuel 0 start enough inside
            (λ k below.
              subst (λ u. start_probe atomic cbuf (start + k) (seen u) ≡ miss) (sym (now k))
                (start_probe-miss atomic cbuf peer filled (start + k) (seen k) (omega arith)
                  (none_before k below)))
            (subst (λ u. start_probe atomic cbuf (start + d) (seen u) ≡ hit (m, s, next))
              (sym (now d)) found),
        (start_probe_hit atomic cbuf peer filled (start + d) (seen d) inside found).0,
      )

  -- What a server leaves behind. Over a filled color buffer, with fuel for more than `d` looks and the
  -- entry that is `d` after `start` among the entries: let no message be pending in the entries before
  -- that one when the server looks at them, and one with an operation above 2, which is EXIT, in that
  -- one. Then the round returns and the server ends with the balances that it had. If the message of
  -- another client is pending then, it is not served and stays in its buffer; and while that buffer
  -- holds it, a call of `ssmp_send` that the client makes to the server never returns.
  pub request_left_behind :
      d < fuel
      → start + d < cbuf.num_ues
      → ((k : ℕ) → k < d → state (seen k (peer (start + k))) ≢ ssmp_buf_messg)
      → state (seen d (peer (start + d))) ≡ ssmp_buf_messg
      → 2 < get_or (seen d (peer (start + d))).words 0 0
      → (client : ℕ) → client ≢ peer (start + d)
      → state (seen d client) ≡ ssmp_buf_messg
      → (env' : Env Slots) (fuel' to : ℕ) (msg : Msg) (c : Slots)
      → ((u : ℕ) → memory env' c (suc u) to ≡ seen d client)
      → (r : Served) × (s : Slots) × (next : ℕ) × (dsl_round atomic env cbuf fuel start s₀ accs
          ≡ done (r, s, next))
        × (r.stop ≡ true)
        × (r.balances ≡ accs)
        × (s client ≡ seen d client)
        × (send atomic env' fuel' to msg c ≡ spinning)
  unfolding dsl_round request_of
  request_left_behind enough inside none_before there op client ne pending env' fuel' to msg c
        same =
      let (m, s, next, ret, got) = round_first enough inside none_before there in
      let (r, served, kept, stops) =
        serve_exit accs (request_of m) (subst (λ ws. 2 < get_or ws 0 0) (sym got.words) op) in
      (
        r,
        s,
        next,
        >>=_returns (recv_color_start atomic env cbuf fuel start s₀) _ ret
            (>>=_returns (serve accs (request_of m)) _ served refl),
        stops,
        kept,
        got.others client (λ e. ne (sym e)),
        send_never atomic env' fuel' to msg c (λ u empty.
            (let full : state (memory env' c (suc u) to) ≡ ssmp_buf_messg =
                ap state (same u) ∙ pending in
              omega arith)),
      )
