-- ===== src/Startup/Start.antt =====
-- `ssmp_mem_init_platf` of src/arch/x86/ssmp_arch.c with the wait at its end.
use ssmp.Base.{ℕ, ◌<◌, ◌≡◌, ◌≢◌, refl, ap, ◌∙◌, true}
use ssmp.Base.Outcome.{done, ◌>>=◌, >>=_returns}
use ssmp.Poll.{Env}
use ssmp.Startup.{Os, Arrays, mem_init}
use ssmp.Startup.Tables.{IsKind, IsComplete, mem_init_lem}
use ssmp.Startup.Ready.{Flags, all_ready, Answers, all_ready_lem}

module _ (os : Os) (kind : IsKind os) (env : ℕ → Env Flags)
    (never_cleared : (ue t i : ℕ) (m : Flags) → m i ≢ 0 → env ue t m i ≢ 0) (fuel : ℕ) where
  -- For a process below `num_ues`, with two processes or more: if the allocations and the barrier succeed,
  -- every shared memory is created with its size, or exists and is opened, and is mapped, no process takes
  -- back that it is initialised, there is fuel, and each other process is seen to be initialised at some
  -- look within it, then `ssmp_mem_init` returns, its three arrays are complete, and by then every process
  -- is initialised.
  pub mem_init-all_ready :
      (id num_ues : ℕ) (m : Flags)
      → 1 < num_ues
      → id < num_ues
      → 0 < fuel
      → Answers env never_cleared fuel id num_ues
      → (a : Arrays) × (m' : Flags) × (mem_init os true
            (done tt)
            (all_ready env fuel id num_ues m >>= λ _. done tt)
            id
            num_ues
          ≡ done a)
        × IsComplete num_ues id a
        × (all_ready env fuel id num_ues m ≡ done m')
        × ((i : ℕ) → i < num_ues → m' i ≢ 0)
  mem_init-all_ready id num_ues m some inside pos answers =
      let (m', ret, own, all) = all_ready_lem env never_cleared fuel id num_ues m pos answers in
      let (a, ran, complete) = mem_init_lem os kind num_ues id some inside in
      let returned : (all_ready env fuel id num_ues m >>= λ _. done tt) ≡ done tt =
        >>=_returns (all_ready env fuel id num_ues m) _ ret refl in
      (a, m', ap (λ r. mem_init os true (done tt) r id num_ues) returned ∙ ran, complete, ret, all)
