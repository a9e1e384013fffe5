-- ===== src/Startup/Ready.antt =====
-- The end of `ssmp_mem_init_platf` of src/arch/x86/ssmp_arch.c: a process says that it is initialised, and
-- waits until all have said so.
use ssmp.Base.{
  ℕ, zero, suc, ◌+◌, ◌<◌, ◌≤◌, ◌≡◌, ◌≢◌, arith, refl, sym, subst, Option, none, some, if◌then◌else◌,
  ◌==◌, ℕ_discrete,
}
use ssmp.Base.Family.{update, update_self}
use ssmp.Base.Outcome.{Outcome, done, ◌>>=◌, >>=-done, >>=_returns}
use ssmp.Poll.{Env, memory, await}
use ssmp.Poll.Await.{await_sound, await_total}

-- `ues_initialized`
abbrev pub Flags : Type 0
Flags = ℕ → ℕ

-- `!ues_initialized[ue]` as the test of a loop
unfoldable pub is_initialized : (ue : ℕ) → Flags → Option Flags
is_initialized ue m = if m ue == 0 then none else some m

-- The loop over the processes, with `k` rounds left. `env ue` is what the others do while the process
-- waits for `ue`.
unfoldable pub ready_loop : (ℕ → Env Flags) → (fuel k ue : ℕ) → Flags → Outcome Flags
ready_loop env fuel zero ue m = done m
ready_loop env fuel (suc k) ue m = do
  m' ← await (env ue) (is_initialized ue) fuel 0 m
  ready_loop env fuel k (ue + 1) m'

-- from `ues_initialized[id] = 1` on
unfoldable pub all_ready : (ℕ → Env Flags) → (fuel id num_ues : ℕ) → Flags → Outcome Flags
unfolding ready_loop
all_ready env fuel id num_ues m = ready_loop env fuel num_ues 0 (update m id 1)

module _ (env : ℕ → Env Flags)
    (never_cleared : (ue t i : ℕ) (m : Flags) → m i ≢ 0 → env ue t m i ≢ 0) where
  memory_keeps : (ue t i : ℕ) (m : Flags) → m i ≢ 0 → memory (env ue) m t i ≢ 0
  unfolding memory
  memory_keeps ue zero i m h = h
  memory_keeps ue (suc t) i m h =
      never_cleared ue t i (memory (env ue) m t) (memory_keeps ue t i m h)

  is_initialized-some : (ue : ℕ) (m : Flags) → m ue ≢ 0 → is_initialized ue m ≡ some m
  unfolding is_initialized
  is_initialized-some ue m ne = ground (arith, ne)

  initialized :
      (ue : ℕ) (m : Flags) {m' : Flags} → is_initialized ue m ≡ some m' → (m ue ≢ 0) × (m ≡ m')
  unfolding is_initialized
  initialized ue m {m'} h = elim (ℕ_discrete (m ue) 0) [
    | yes e ↦ absurd (ground arith)
    | no ne ↦ let found : some m ≡ some m' = ground arith in (ne, (cc))
  ]

  module _ (fuel : ℕ) where
    -- what one wait leaves
    waited :
        (ue : ℕ) (m : Flags) {m' : Flags}
        → await (env ue) (is_initialized ue) fuel 0 m ≡ done m'
        → (m' ue ≢ 0) × ((i : ℕ) → m i ≢ 0 → m' i ≢ 0)
    unfolding memory
    waited ue m {m'} h =
        let (u, found) = await_sound (env ue) m (is_initialized ue) fuel 0 h in
        let (ne, same) = initialized ue (memory (env ue) m (suc u)) found in
        (
          subst (λ x. x ue ≢ 0) same ne,
          λ i set. subst (λ x. x i ≢ 0) same (memory_keeps ue (suc u) i m set),
        )

    ready_loop_sound :
        (k ue : ℕ) (m : Flags) {m' : Flags}
        → ready_loop env fuel k ue m ≡ done m'
        → ((i : ℕ) → m i ≢ 0 → m' i ≢ 0) × ((i : ℕ) → ue ≤ i → i < ue + k → m' i ≢ 0)
    unfolding ready_loop
    ready_loop_sound zero ue m {m'} h =
        let ran : done m ≡ done m' = h in
        let same : m ≡ m' = cc in
        ((λ i set. subst (λ x. x i ≢ 0) same set), λ i le lt. absurd (omega arith))
    ready_loop_sound (suc k) ue m {m'} h =
        let (s, first, later) = >>=-done (await (env ue) (is_initialized ue) fuel 0 m) _ h in
        let (here, keeps) = waited ue m first in
        let (keeps', there) = ready_loop_sound k (ue + 1) s later in
        (
          (λ i set. keeps' i (keeps i set)),
          λ i le lt. elim (ℕ_discrete ue i) [
            | yes now ↦ keeps' i (subst (λ j. s j ≢ 0) now here)
            | no next ↦ there i (omega arith) (omega arith)
          ],
        )

    -- each other process is seen to be initialised within the fuel, from whatever flags
    unfoldable pub Answers : (id num_ues : ℕ) → Type 0
    Answers id num_ues =
        (ue : ℕ)
        → ue < num_ues
        → ue ≢ id
        → (m : Flags) → (k : ℕ) × (k < fuel) × (memory (env ue) m (suc k) ue ≢ 0)

    -- so is the process itself, which finds its own flag
    answer :
        (id n ue : ℕ) (m : Flags)
        → 0 < fuel
        → ue < n
        → m id ≢ 0
        → Answers id n
        → (k : ℕ) × (k < fuel) × (memory (env ue) m (suc k) ue ≢ 0)
    unfolding Answers
    answer id n ue m pos lt own answers = elim (ℕ_discrete ue id) [
      | no other ↦ answers ue lt other m
      | yes same ↦ (0, pos, memory_keeps ue 1 ue m (subst (λ i. m i ≢ 0) (sym same) own))
    ]

    ready_loop_total :
        (id k ue n : ℕ) (m : Flags)
        → ue + k ≡ n
        → 0 < fuel
        → m id ≢ 0
        → Answers id n
        → (m' : Flags) × (ready_loop env fuel k ue m ≡ done m')
    unfolding ready_loop memory
    ready_loop_total id zero ue n m e pos own answers = (m, refl)
    ready_loop_total id (suc k) ue n m e pos own answers =
        let (j, lt, set) = answer id n ue m pos (omega arith) own answers in
        let same : j ≡ 0 + j = omega arith in
        let (s, first) =
          await_total (env ue) m (is_initialized ue) j fuel 0 (memory (env ue) m (suc j)) lt (
            subst
              (λ i.
                is_initialized ue (memory (env ue) m (suc i)) ≡ some (memory (env ue) m (suc j)))
              same (is_initialized-some ue (memory (env ue) m (suc j)) set)) in
        let own' : s id ≢ 0 = (waited ue m first).1 id own in
        let (m', later) = ready_loop_total id k (ue + 1) n s (omega arith) pos own' answers in
        (m', >>=_returns (await (env ue) (is_initialized ue) fuel 0 m) _ first later)

    -- If no process takes back that it is initialised, there is fuel, and each other process below `num_ues`
    -- is seen to be so at some look within it, then the end of `ssmp_mem_init` returns, and all of them,
    -- and this process, are initialised then.
    pub all_ready_lem :
        (id num_ues : ℕ) (m : Flags)
        → 0 < fuel
        → Answers id num_ues
        → (m' : Flags) × (all_ready env fuel id num_ues m ≡ done m')
          × (m' id ≢ 0)
          × ((i : ℕ) → i < num_ues → m' i ≢ 0)
    unfolding all_ready
    all_ready_lem id num_ues m pos answers =
        let own : update m id 1 id ≢ 0 = ground (arith, update_self m id 1) in
        let (m', ret) =
          ready_loop_total id num_ues 0 num_ues (update m id 1) (omega arith) pos own answers in
        let (keeps, all) = ready_loop_sound num_ues 0 (update m id 1) ret in
        (m', ret, keeps id own, λ i lt. all i (omega arith) (omega arith))
