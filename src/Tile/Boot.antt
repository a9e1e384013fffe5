-- ===== src/Tile/Boot.antt =====
-- `ssmp_init_platf` and `ssmp_mem_init_platf` of src/arch/tile/ssmp_arch.c, with the calls of the TMC
-- library as parameters.
use ssmp.Base.{
  ℕ, zero, suc, ◌+◌, ◌<◌, ◌≤◌, ◌≡◌, refl, arith, Bool, true, List, [], ◌∷◌, none, some, get_elem?,
  if◌then◌else◌, ltb, ap, ◌∙◌,
}
use ssmp.Base.Outcome.{Outcome, done, fault, exited, ◌>>=◌}
use ssmp.Barrier.{ssmp_num_barriers}

-- What the calls return, of which `tmc_task_die` ends the process: whether `tmc_udn_init`, the
-- allocations and `tmc_udn_activate` succeed, `tmc_cpus_count`, `tmc_cpus_find_nth_cpu` and
-- `tmc_udn_header_from_cpu`.
pub record Tmc : Type 0 where
  pub udn_init : Bool
  pub cmem_calloc : Bool
  pub cpus_count : ℕ
  pub udn_activate : Bool
  pub memalign : Bool
  pub find_nth_cpu : ℕ → ℕ
  pub header_from_cpu : ℕ → ℕ

-- `for (b = 0; b < SSMP_NUM_BARRIERS; b++) tmc_sync_barrier_init(ssmp_barrier + b, num_procs)`, with
-- `k` rounds left: the number of processes that each barrier waits for
unfoldable pub barrier_loop : (num_procs k : ℕ) → List ℕ
barrier_loop num_procs zero = []
barrier_loop num_procs (suc k) = num_procs ∷ barrier_loop num_procs k

-- `ssmp_init_platf`: the barriers; `death` is the status that `tmc_task_die` ends the process with.
unfoldable pub tile_init : Tmc → (death num_procs : ℕ) → Outcome (List ℕ)
unfolding barrier_loop
tile_init t death num_procs =
    if t.udn_init
    then (if t.cmem_calloc
        then (if ltb t.cpus_count num_procs
            then exited death
            else done (barrier_loop num_procs ssmp_num_barriers))
        else exited death)
    else exited death

-- `id_to_core`: the process with an id below 48 runs on the core of that number.
unfoldable pub core_ids : (k core : ℕ) → List ℕ
core_ids zero core = []
core_ids (suc k) core = core ∷ core_ids k (core + 1)

-- the loop of `ssmp_mem_init_platf` from process `r` on, with `k` processes left
unfoldable pub header_loop : Tmc → (k r : ℕ) → Outcome (List ℕ)
unfolding core_ids
header_loop t zero r = done []
header_loop t (suc k) r = elim (get_elem? (core_ids 48 0) r) [
  | none ↦ fault
  | some core ↦ do
    rest ← header_loop t k (r + 1)
    done (t.header_from_cpu (t.find_nth_cpu core) ∷ rest)
]

-- `ssmp_mem_init_platf`: `udn_header`
unfoldable pub tile_mem_init : Tmc → (death num_ues : ℕ) → Outcome (List ℕ)
unfolding header_loop
tile_mem_init t death num_ues =
    if t.udn_activate
    then (if t.memalign then header_loop t num_ues 0 else exited death)
    else exited death

-- `set_cpu_platf`: `ok` is whether `tmc_cpus_set_my_cpu` succeeds; the result is `ssmp_my_core`.
unfoldable pub tile_set_cpu : (ok : Bool) → (death cpu : ℕ) → Outcome ℕ
tile_set_cpu ok death cpu = if ok then done cpu else exited death

-- `ssmp_term_platf`: `ok` is whether `tmc_udn_close` returns 0.
unfoldable pub tile_term : (ok : Bool) → (death : ℕ) → Outcome (Unit {0})
tile_term ok death = if ok then done tt else exited death

get_elem?-core_ids : (k core r : ℕ) → r < k → get_elem? (core_ids k core) r ≡ some (core + r)
unfolding core_ids
get_elem?-core_ids zero core r lt = absurd (omega arith)
get_elem?-core_ids (suc k) core zero lt = ap (λ n. some n) (omega arith)
get_elem?-core_ids (suc k) core (suc r) lt =
    get_elem?-core_ids k (core + 1) r (omega arith) ∙ ap (λ n. some n) (omega arith)

-- the header of a process
abbrev pub header_of : Tmc → ℕ → ℕ
header_of t r = t.header_from_cpu (t.find_nth_cpu r)

header_at :
    (t : Tmc) (r : ℕ) (hs : List ℕ) (i : ℕ)
    → ((j : ℕ) → i ≡ suc j → get_elem? hs j ≡ some (header_of t (r + 1 + j)))
    → get_elem? (header_of t r ∷ hs) i ≡ some (header_of t (r + i))
header_at t r hs zero at = ap (λ n. some (header_of t n)) (omega arith)
header_at t r hs (suc j) at = at j refl ∙ ap (λ n. some (header_of t n)) (omega arith)

header_loop_lem :
    (t : Tmc) (k r : ℕ)
    → r + k ≤ 48
    → (hs : List ℕ) × (header_loop t k r ≡ done hs)
      × ((i : ℕ) → i < k → get_elem? hs i ≡ some (header_of t (r + i)))
unfolding header_loop
header_loop_lem t zero r le = ([], refl, λ i lt. absurd (omega arith))
header_loop_lem t (suc k) r le =
    let (hs, ret, at) = header_loop_lem t k (r + 1) (omega arith) in
    let core : get_elem? (core_ids 48 0) r ≡ some (0 + r) =
      get_elem?-core_ids 48 0 r (omega arith) in
    (
      header_of t r ∷ hs,
      rw (core, ret) (ap (λ n. done (header_of t n ∷ hs)) (omega arith)),
      λ i lt. header_at t r hs i (λ j e. at j (omega (arith, e, lt))),
    )

-- For at most 48 processes, if no call of the library fails, then `ssmp_mem_init` fills `udn_header`
-- with the header of each process.
pub tile_mem_init_lem :
    (t : Tmc) (death num_ues : ℕ)
    → num_ues ≤ 48
    → t.udn_activate ≡ true
    → t.memalign ≡ true
    → (hs : List ℕ) × (tile_mem_init t death num_ues ≡ done hs)
      × ((i : ℕ) → i < num_ues → get_elem? hs i ≡ some (header_of t i))
unfolding tile_mem_init
tile_mem_init_lem t death num_ues le active space =
    let on : tile_mem_init t death num_ues ≡ header_loop t num_ues 0 =
      ground (arith, active, space) in
    let (hs, ret, at) = header_loop_lem t num_ues 0 (omega arith) in
    (hs, on ∙ ret, λ i lt. at i lt ∙ ap (λ k. some (header_of t k)) (omega arith))
