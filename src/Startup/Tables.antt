-- ===== src/Startup/Tables.antt =====
-- The pointers that a process has after `ssmp_mem_init`.
use ssmp.Base.{
  ℕ, zero, suc, ◌+◌, ◌-◌, ◌≤◌, ◌<◌, ◌≡◌, ◌≢◌, refl, arith, true, false, ◌⊎◌, List, Option, none,
  some, get_elem?, set, length, if◌then◌else◌, ltb, ℕ_discrete, ◌∙◌, subst, ap, sym,
}
use ssmp.Barrier.{Barrier}
use ssmp.Barrier.Init.{init_barriers_lem}
use ssmp.Base.Outcome.{done, ◌>>=◌, ◌>>◌}
use ssmp.Layout.{x86_recv_buf, x86_send_buf, x86_regions}
use ssmp.Startup.Partly.{Partly, Partly-set, Partly-skip, Partly-none, Partly-all}
use ssmp.Startup.{
  Os, open_shared, Place, Arrays, own_round, own_loop, send_loop, allocated, mem_init, init,
}

-- Each shared memory is created with its size, or another process has created it and it is opened; then
-- it is mapped.
pub record IsKind (os : Os) : Type 0 where
  pub opened :
      (k : ℕ)
      → ((os.create k ≡ true) × (os.truncate k ≡ true))
        ⊎ ((os.create k ≡ false) × (os.existed k ≡ true) × (os.reopen k ≡ true))
  pub mapped : (k : ℕ) → os.map k ≢ 0

open_shared-kind : (os : Os) → IsKind os → (k : ℕ) → open_shared os k ≡ done tt
unfolding open_shared
open_shared-kind os kind k = ground (arith, kind.opened k, kind.mapped k)

-- the arrays before the round of `core` of the first loop
abbrev Own : (n id core : ℕ) → Arrays → Type 0
Own n id core a =
    Partly n core (x86_recv_buf id) a.recv_buf
    × Partly n core (λ j. some j) a.chunk_buf
    × Partly n 0 (x86_send_buf id) a.send_buf

abbrev place_of : (id core : ℕ) → Option Place
place_of id core = some (id, if ltb id core then core - 1 else core)

round_own : (id core : ℕ) (a : Arrays) → id ≡ core → (own_round id core a).recv_buf ≡ a.recv_buf
unfolding own_round
round_own id core a e = ground (arith, e)

round_other :
    (id core : ℕ) (a : Arrays)
    → id ≢ core
    → (own_round id core a).recv_buf ≡ set a.recv_buf core (place_of id core)
unfolding own_round
round_other id core a ne = ground (arith, ne)

own_round-Own :
    (n id core : ℕ) (a : Arrays)
    → core < n
    → Own n id core a
    → Own n id (core + 1) (own_round id core a)
unfolding own_round x86_recv_buf
own_round-Own n id core a lt (recvs, chunks, sends) = (
  elim (ℕ_discrete id core) [
    | yes same ↦
        subst (Partly n (core + 1) (x86_recv_buf id)) (sym (round_own id core a same))
          (Partly-skip n (x86_recv_buf id) core a.recv_buf lt recvs (ground (arith, same)))
    | no ne ↦ subst (Partly n (core + 1) (x86_recv_buf id)) (sym (round_other id core a ne)) (
        Partly-set n (x86_recv_buf id) core a.recv_buf lt recvs (place_of id core)
          (ground (arith, ne)))
  ],
  Partly-set n (λ j. some j) core a.chunk_buf lt chunks (some core) refl,
  sends,
)

own_loop-Own :
    (n id k core : ℕ) (a : Arrays)
    → core + k ≡ n
    → Own n id core a
    → Own n id n (own_loop id k core a)
unfolding own_loop
own_loop-Own n id zero core a e own =
    let same : core ≡ n = omega arith in subst (λ c. Own n id c a) same own
own_loop-Own n id (suc k) core a e own =
    own_loop-Own n id k (core + 1) (own_round id core a) (omega arith)
      (own_round-Own n id core a (omega arith) own)

-- the arrays of process `id` among `n`, complete
pub record IsComplete (n id : ℕ) (a : Arrays) : Type 0 where
  pub recvs : (j : ℕ) → j < n → get_elem? a.recv_buf j ≡ some (x86_recv_buf id j)
  pub sends : (j : ℕ) → j < n → get_elem? a.send_buf j ≡ some (x86_send_buf id j)
  pub chunks : (j : ℕ) → j < n → get_elem? a.chunk_buf j ≡ some (some j)

module _ (os : Os) (kind : IsKind os) (n id : ℕ) where
  abbrev target : ℕ → Option Place
  target core = some (core, if ltb core id then id - 1 else id)

  own_send : (core : ℕ) → core ≡ id → x86_send_buf id core ≡ none
  unfolding x86_send_buf
  own_send core same = ground (arith, same)

  other_send : (core : ℕ) → core ≢ id → x86_send_buf id core ≡ target core
  unfolding x86_send_buf
  other_send core ne = ground (arith, ne)

  loop_own :
      (k core : ℕ) (a : Arrays)
      → core ≡ id
      → send_loop os id (suc k) core a ≡ send_loop os id k (core + 1) a
  unfolding send_loop
  loop_own k core a same = ground (arith, same)

  loop_other :
      (k core : ℕ) (a : Arrays)
      → core ≢ id
      → send_loop os id (suc k) core a
        ≡ send_loop os id k (core + 1) (record a { send_buf = set a.send_buf core (target core) })
  unfolding send_loop
  loop_other k core a ne = ground (arith, ne, open_shared-kind os kind core)

  send_loop_lem :
      (k core : ℕ) (a : Arrays)
      → core + k ≡ n
      → Partly n core (x86_send_buf id) a.send_buf
      → (a' : Arrays) × (send_loop os id k core a ≡ done a')
        × Partly n n (x86_send_buf id) a'.send_buf
        × (a'.recv_buf ≡ a.recv_buf)
        × (a'.chunk_buf ≡ a.chunk_buf)
  unfolding send_loop
  send_loop_lem zero core a e p =
      let same : core ≡ n = omega arith in
      (a, refl, subst (λ c. Partly n c (x86_send_buf id) a.send_buf) same p, refl, refl)
  send_loop_lem (suc k) core a e p = elim (ℕ_discrete core id) [
    | yes same ↦
        let (a', ret, sends, rs, cs) =
          send_loop_lem k (core + 1) a (omega arith) (
            Partly-skip n (x86_send_buf id) core a.send_buf (omega arith) p (own_send core same)) in
        (a', loop_own k core a same ∙ ret, sends, rs, cs)
    | no ne ↦
        let next : Arrays = record a { send_buf = set a.send_buf core (target core) } in
        let (a', ret, sends, rs, cs) = send_loop_lem k (core + 1) next (omega arith) (
          Partly-set n (x86_send_buf id) core a.send_buf (omega arith) p (target core)
            (other_send core ne)) in
        (a', loop_other k core a ne ∙ ret, sends, rs, cs)
  ]

-- For a process below `n`, with two processes or more, if the allocations, the calls of the
-- system and the waiting for the others succeed, `ssmp_mem_init` returns and its three arrays are
-- complete: for each other process the buffer to receive from it and the buffer to send to it,
-- and for every process its chunk.
pub mem_init_lem :
    (os : Os)
    → IsKind os
    → (n id : ℕ) → 2 ≤ n
    → id < n
    → (a : Arrays) × (mem_init os true (done tt) (done tt) id n ≡ done a) × IsComplete n id a
unfolding mem_init allocated
mem_init_lem os kind n id two here =
    let own : Own n id n (own_loop id n 0 (allocated n)) =
      own_loop-Own n id n 0 (allocated n) (omega arith) (
        Partly-none n (x86_recv_buf id),
        Partly-none n (λ j. some j),
        Partly-none n (x86_send_buf id),
      ) in
    let (a, ret, sends, rs, cs) =
      send_loop_lem os kind n id n 0 (own_loop id n 0 (allocated n)) (omega arith) own.2 in
    (
      a,
      ground (arith, open_shared-kind os kind id, ret),
      record {
        recvs = λ j lt. ap (λ xs. get_elem? xs j) rs ∙ Partly-all n (x86_recv_buf id) _ own.0 j lt;
        sends = Partly-all n (x86_send_buf id) _ sends;
        chunks = λ j lt. ap (λ xs. get_elem? xs j) cs ∙ Partly-all n (λ j. some j) _ own.1 j lt;
      },
    )

-- If the memory is created or opened, and mapped, `ssmp_init` returns the regions of the shared memory and fresh barriers.
pub init-kind :
    (os : Os)
    → IsKind os
    → (mem c n : ℕ) (bs : List Barrier) → length bs ≡ 16
    → (bs' : List Barrier) × (init os mem c n bs ≡ done (x86_regions c n, bs'))
unfolding init
init-kind os kind mem c n bs len =
    let (bs', ret, all) = init_barriers_lem bs len in
    (bs', rw (open_shared-kind os kind mem, ret, ◌>>=◌, ◌>>◌) refl)
