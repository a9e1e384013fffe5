-- ===== src/Startup/Tests.antt =====
-- The start of process 1 among 3.
use ssmp.Base.{ℕ, ◌<◌, ◌≡◌, ◌≢◌, arith, true, if◌then◌else◌, ◌==◌}
use ssmp.Base.Outcome.{done, ◌>>=◌}
use ssmp.Poll.{Env, memory}
use ssmp.Startup.{Os, Arrays, mem_init}
use ssmp.Startup.Tables.{IsKind, IsComplete}
use ssmp.Startup.Ready.{Flags, all_ready, Answers}
use ssmp.Startup.Start.{mem_init-all_ready}

-- It creates its own memory, and the others have created theirs.
abbrev fine : Os
fine = record {
  create = λ k. k == 1;
  existed = λ _. true;
  reopen = λ _. true;
  truncate = λ _. true;
  map = λ k. 4096;
}

fine-IsKind : IsKind fine
fine-IsKind = record { opened = λ k. ground arith; mapped = λ k. omega arith }

-- The other processes are initialised before the first look.
abbrev others : ℕ → Env Flags
others ue t m i = if i == 1 then m i else 1

others_keep : (ue t i : ℕ) (m : Flags) → m i ≢ 0 → others ue t m i ≢ 0
others_keep ue t i m set = ground (arith, set)

abbrev all_clear : Flags
all_clear i = 0

others-Answers : Answers others others_keep 1 1 3
unfolding Answers memory
others-Answers ue lt ne m = (0, omega arith, ground (arith, ne))

mem_init-all_ready_example :
    (a : Arrays) × (m' : Flags) × (mem_init fine true
        (done tt)
        (all_ready others 1 1 3 all_clear >>= λ _. done tt)
        1
        3
      ≡ done a)
    × IsComplete 3 1 a
    × (all_ready others 1 1 3 all_clear ≡ done m')
    × ((i : ℕ) → i < 3 → m' i ≢ 0)
mem_init-all_ready_example =
    mem_init-all_ready fine fine-IsKind others others_keep 1 1 3 all_clear (omega arith)
      (omega arith) (omega arith) others-Answers
