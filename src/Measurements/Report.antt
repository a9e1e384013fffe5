-- ===== src/Measurements/Report.antt =====
-- `prints_ticks_stats` of prof/measurements.c, without the floating point: which positions it reports, and
-- with which numbers.
use ssmp.Base.{
  ℕ, zero, suc, ◌+◌, ◌-◌, ◌^◌, ◌<◌, ◌≤◌, ◌≡◌, ◌≢◌, arith, refl, ap, ◌∙◌, Bool, true, false, not,
  ◌&&◌, List, [], ◌∷◌, none, some, get_elem?, get_or, length, if◌then◌else◌, ◌==◌,
}
use ssmp.Base.Outcome.{Outcome, done, fault, ◌>>=◌, >>=_returns}
use ssmp.Measurements.{Profile, u64}

-- `mpoints` is counted and not used.
pub record Totals : Type 0 where
  pub have_output : Bool
  pub tsamples : ℕ
  pub tticks : ℕ

-- the two arrays at `i`
unfoldable pub read : ℕ → Profile → Outcome (ℕ × ℕ)
read i p = elim (get_elem? p.total_samples i) [
  | none ↦ fault
  | some n ↦ elim (get_elem? p.total_sum_ticks i) [ none ↦ fault | some t ↦ done (n, t) ]
]

-- one round of the first loop
unfoldable pub add_position : (samples ticks : ℕ) → Totals → Totals
add_position n t acc = if n == 0 then acc else record {
  have_output = true;
  tsamples = u64 (acc.tsamples + n);
  tticks = u64 (acc.tticks + t);
}

-- the first loop, with `k` rounds left
unfoldable pub totals_loop : (k i : ℕ) → Profile → Totals → Outcome Totals
unfolding add_position
totals_loop zero i p acc = done acc
totals_loop (suc k) i p acc = do (n, t) ← read i p; totals_loop k (i + 1) p (add_position n t acc)

-- what is printed of a position: its share is `ticks` of `tticks`, its average `ticks` of `samples`.
pub record Line : Type 0 where
  pub position : ℕ
  pub samples : ℕ
  pub ticks : ℕ
  pub tticks : ℕ

-- the second loop
unfoldable pub lines_loop : (k i tticks : ℕ) → Profile → Outcome (List Line)
lines_loop zero i tticks p = done []
lines_loop (suc k) i tticks p = do
  (n, t) ← read i p
  rest ← lines_loop k (i + 1) tticks p
  done (
      if not (n == 0) && not (t == 0)
      then record { position = i; samples = n; ticks = t; tticks = tticks } ∷ rest
      else rest)

-- `prints_ticks_stats(start, end)` for a start that is not above the end: whether it prints the heading,
-- and the lines
unfoldable pub prints_ticks_stats : (start end : ℕ) → Profile → Outcome (Bool × List Line)
unfolding totals_loop lines_loop
prints_ticks_stats start end p = do
  acc ← totals_loop (end - start) start p (record { have_output = false; tsamples = 0; tticks = 0 })
  ls ← lines_loop (end - start) start acc.tticks p
  done (acc.have_output, ls)

-- the ticks of the positions that have samples, unbounded
unfoldable pub all_ticks : (k i : ℕ) → Profile → ℕ
all_ticks zero i p = 0
all_ticks (suc k) i p =
    (if get_or p.total_samples i 0 == 0 then 0 else get_or p.total_sum_ticks i 0)
    + all_ticks k (i + 1) p

-- the lines of the positions with samples and ticks
unfoldable pub lines_of : (k i tticks : ℕ) → Profile → List Line
lines_of zero i tticks p = []
lines_of (suc k) i tticks p =
    let n = get_or p.total_samples i 0 in
    let t = get_or p.total_sum_ticks i 0 in
    if not (n == 0) && not (t == 0)
    then record { position = i; samples = n; ticks = t; tticks = tticks }
      ∷ lines_of k (i + 1) tticks p
    else lines_of k (i + 1) tticks p

-- The share of a line is a part of the whole, and no division is by 0.
abbrev pub IsShare : Line → Type 0
IsShare l = (l.samples ≢ 0) × (0 < l.tticks) × (l.ticks ≤ l.tticks)

unfoldable pub AllShares : List Line → Type 0
AllShares [] = Unit
AllShares (l ∷ ls) = IsShare l × AllShares ls

get_elem?-get_or : (xs : List ℕ) (i : ℕ) → i < length xs → get_elem? xs i ≡ some (get_or xs i 0)
get_elem?-get_or [] i lt = absurd (omega arith)
get_elem?-get_or (x ∷ xs) zero lt = refl
get_elem?-get_or (x ∷ xs) (suc i) lt = get_elem?-get_or xs i (omega arith)

module _ (p : Profile) (sums : length p.total_sum_ticks ≡ 16)
    (counts : length p.total_samples ≡ 16) where
  read_lem :
      (i : ℕ) → i < 16 → read i p ≡ done (get_or p.total_samples i 0, get_or p.total_sum_ticks i 0)
  unfolding read
  read_lem i lt = ground (
    arith,
    get_elem?-get_or p.total_samples i (omega (arith, counts)),
    get_elem?-get_or p.total_sum_ticks i (omega (arith, sums)),
  )

  added :
      (n t : ℕ) (acc : Totals)
      → acc.tticks + (if n == 0 then 0 else t) < 2 ^ 64
      → (add_position n t acc).tticks ≡ acc.tticks + (if n == 0 then 0 else t)
  unfolding add_position
  added n t acc small = ground arith

  totals_loop_lem :
      (k i : ℕ) (acc : Totals)
      → i + k ≤ 16
      → acc.tticks + all_ticks k i p < 2 ^ 64
      → (t : Totals) × (totals_loop k i p acc ≡ done t) × (t.tticks ≡ acc.tticks + all_ticks k i p)
  unfolding totals_loop all_ticks
  totals_loop_lem zero i acc le small = (acc, refl, omega arith)
  totals_loop_lem (suc k) i acc le small =
      let n : ℕ = get_or p.total_samples i 0 in
      let t : ℕ = get_or p.total_sum_ticks i 0 in
      let (acc', ret, sum) =
        totals_loop_lem k (i + 1) (add_position n t acc) (omega arith)
          (omega (arith, added n t acc (omega arith), small)) in
      (
        acc',
        >>=_returns (read i p) _ (read_lem i (omega arith)) ret,
        omega (arith, sum, added n t acc (omega arith)),
      )

  lines_loop_lem :
      (k i tticks : ℕ) → i + k ≤ 16 → lines_loop k i tticks p ≡ done (lines_of k i tticks p)
  unfolding lines_loop lines_of
  lines_loop_lem zero i tticks le = refl
  lines_loop_lem (suc k) i tticks le =
      ground (arith, read_lem i (omega arith), lines_loop_lem k (i + 1) tticks (omega arith))

  lines_of-AllShares :
      (k i tticks : ℕ) → all_ticks k i p ≤ tticks → AllShares (lines_of k i tticks p)
  unfolding lines_of AllShares all_ticks
  lines_of-AllShares zero i tticks le = tt
  lines_of-AllShares (suc k) i tticks le = ground (arith, lines_of-AllShares k (i + 1) tticks)

  -- If the arrays have 16 entries, the range is one of positions, and the ticks of its positions that have
  -- samples add up to less than 2^64, `prints_ticks_stats` returns and prints a line for each position of
  -- the range with samples and ticks, in their order. No line divides by 0, and none has a share above
  -- the whole.
  pub prints_ticks_stats_lem :
      (start end : ℕ)
      → start ≤ end
      → end ≤ 16
      → all_ticks (end - start) start p < 2 ^ 64
      → (heading : Bool) × (prints_ticks_stats start end p
          ≡ done (heading, lines_of (end - start) start (all_ticks (end - start) start p) p))
        × AllShares (lines_of (end - start) start (all_ticks (end - start) start p) p)
  unfolding prints_ticks_stats
  prints_ticks_stats_lem start end le inside small =
      let (acc, ret, sum) =
        totals_loop_lem (end - start) start
          (record { have_output = false; tsamples = 0; tticks = 0 }) (omega arith) (omega arith) in
      let whole : acc.tticks ≡ all_ticks (end - start) start p = omega (arith, sum) in
      (
        acc.have_output,
        >>=_returns (totals_loop (end - start) start p _) _ ret (
            >>=_returns (lines_loop (end - start) start acc.tticks p) _
              (lines_loop_lem (end - start) start acc.tticks (omega arith)
                ∙ ap (λ w. done (lines_of (end - start) start w p)) whole)
              refl),
        lines_of-AllShares (end - start) start (all_ticks (end - start) start p) (omega arith),
      )
