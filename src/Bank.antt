-- ===== src/Bank.antt =====
-- benchmarks/bank.c: servers that keep the accounts of a bank (`bank_dsl`), and how the processes are
-- told apart and the accounts spread over the servers.
pub mod Ledger
pub mod Servers
pub mod Sequence
pub mod Run
pub mod Client
pub mod Lost
pub mod Exit
pub mod Options
mod Tests
use ssmp.Base.{
  ℕ, zero, suc, ◌+◌, ◌-◌, ◌/◌, ◌%◌, ◌^◌, Bool, true, false, List, [], ◌∷◌, Option, none, some,
  get_elem?, set, replicate, if◌then◌else◌, ◌==◌, leb,
}
use ssmp.Base.Outcome.{Outcome, done, fault, ◌>>=◌}

abbrev pub u32 : ℕ → ℕ
u32 n = n % 2 ^ 32

-- `a <= b` for 32-bit patterns of signed integers
unfoldable pub signed_le : ℕ → ℕ → Bool
signed_le a b = leb (u32 (a + 2 ^ 31)) (u32 (b + 2 ^ 31))

-- A request: the words w0, w1 and w2 of its message, as 32-bit patterns.
pub record Request : Type 0 where
  pub op : ℕ
  pub acc : ℕ
  pub amount : ℕ

-- What a request leaves: the balances, the w2 of the reply if there is one, and whether the server ends.
pub record Served : Type 0 where
  pub balances : List ℕ
  pub reply : Option ℕ
  pub stop : Bool

-- The `switch` of `bank_dsl` over the operations DEPOSIT, WITHDRAW and CHECK; all others end the
-- server. An account that does not exist is an access out of bounds.
unfoldable pub serve : List ℕ → Request → Outcome Served
unfolding signed_le
serve accs r =
    if r.op == 0
    then elim (get_elem? accs r.acc) [
      | none ↦ fault
      | some b ↦
          done
            (record { balances = set accs r.acc (u32 (b + r.amount)); reply = none; stop = false })
    ]
    else if r.op == 1
    then elim (get_elem? accs r.acc) [
      | none ↦ fault
      | some b ↦ done (
          if signed_le r.amount b
          then record {
            balances = set accs r.acc (u32 (b + 2 ^ 32 - r.amount));
            reply = some 1;
            stop = false;
          }
          else record { balances = accs; reply = some 0; stop = false })
    ]
    else if r.op == 2
    then elim (get_elem? accs r.acc) [
      | none ↦ fault
      | some b ↦ done (record { balances = accs; reply = some b; stop = false })
    ]
    else done (record { balances = accs; reply = none; stop = true })

-- The clients' calls, each with the server's answer to its request: what the call returns, and the
-- balances afterwards. `deposit` does not wait for an answer, and `check` and `withdraw` return the w2
-- of the reply.
unfoldable pub deposit : (acc amount : ℕ) → List ℕ → Outcome (ℕ × List ℕ)
unfolding serve
deposit acc amount accs = do
  s ← serve accs (record { op = 0; acc = acc; amount = amount })
  done (amount, s.balances)

-- `junk` is the w2 that the message of the client still has.
unfoldable pub check : (acc junk : ℕ) → List ℕ → Outcome (Option ℕ × List ℕ)
unfolding serve
check acc junk accs = do
  s ← serve accs (record { op = 2; acc = acc; amount = junk })
  done (s.reply, s.balances)

unfoldable pub withdraw : (acc amount : ℕ) → List ℕ → Outcome (Option ℕ × List ℕ)
unfolding serve
withdraw acc amount accs = do
  s ← serve accs (record { op = 1; acc = acc; amount = amount })
  done (s.reply, s.balances)

-- `color_dsl`; `per_core` is `dsl_per_core`.
unfoldable pub color_dsl : ℕ → ℕ → ℕ
color_dsl per_core id = if id % per_core == 0 then 1 else 0

-- `color_app1`
unfoldable pub color_app1 : ℕ → ℕ → ℕ
unfolding color_dsl
color_app1 per_core id = if color_dsl per_core id == 0 then 1 else 0

-- `dsl_seq`, which has 256 entries, and the counts `num_dsl` (also `dsl_seq_idx`) and `num_app`
pub record Setup : Type 0 where
  pub dsl_seq : List ℕ
  pub num_dsl : ℕ
  pub num_app : ℕ

-- one round of the loop of `main` over the processes; the counts are bytes.
unfoldable pub setup_round : ℕ → ℕ → Setup → Setup
unfolding color_dsl
setup_round per_core i s =
    if color_dsl per_core i == 0
    then record s { num_app = (s.num_app + 1) % 2 ^ 8 }
    else record s { num_dsl = (s.num_dsl + 1) % 2 ^ 8; dsl_seq = set s.dsl_seq s.num_dsl i }

-- that loop, with `k` rounds left
unfoldable pub setup_loop : ℕ → ℕ → ℕ → Setup → Setup
unfolding setup_round
setup_loop per_core zero i s = s
setup_loop per_core (suc k) i s = setup_loop per_core k (i + 1) (setup_round per_core i s)

unfoldable pub setup : (per_core num_procs : ℕ) → Setup
unfolding setup_loop
setup per_core num_procs =
    setup_loop per_core num_procs 0 (record { dsl_seq = replicate 256 0; num_dsl = 0; num_app = 0 })

-- `get_dsl`
unfoldable pub get_dsl : List ℕ → (acc per_dsl : ℕ) → Option ℕ
get_dsl seq acc per_dsl = get_elem? seq (acc / per_dsl)
