-- ===== src/Sparc/Wait/Call.antt =====
-- `ssmp_barrier_wait_platf` of src/arch/sparc/ssmp_arch.c as a whole: what it leaves when it returns, and
-- when it returns.
use ssmp.Base.{
  ℕ, suc, true, false, ltb, ◌≤◌, ◌<◌, ◌+◌, ◌≡◌, ◌≢◌, ◌⊎◌, refl, sym, ◌∙◌, arith, none, some, dec_lt,
  Option-cases, inl, inr,
}
use ssmp.Base.Int.{pos}
use ssmp.Base.Outcome.{done_injective, done, ◌>>=◌, >>=_returns}
use ssmp.Poll.{memory, await}
use ssmp.Poll.Await.{await_total}
use ssmp.Barrier
use ssmp.Barrier.{Barrier, u32, ssmp_num_barriers}
use ssmp.Barrier.System.{outside, Shared}
use ssmp.Sparc.{count_part}
use ssmp.Sparc.Agree.{count_part-x86}
use ssmp.Sparc.Wait.{is_shut, is_open, Others, take_ticket, give_ticket, barrier_wait}
use ssmp.Sparc.Wait.Walk.{Walk, at_pc, call-Walk}

-- Some look of the first loop within the fuel does not see `cleared == 1`.
unfoldable pub Free : Others → (fuel : ℕ) → Shared → Type 0
Free o fuel m = (k : ℕ) × (k < fuel) × ((memory (o.loop 0) m (suc k)).cleared ≢ 1)

-- Behind any arrival, some look of the second loop within the fuel does not see `cleared == 0`.
unfoldable pub Opens : Others → (num_part fuel : ℕ) → Type 0
Opens o num_part fuel =
    (s : Shared)
    → (k : ℕ) × (k < fuel) × ((memory (o.loop 1) (take_ticket o num_part s) (suc k)).cleared ≢ 0)

module _ (o : Others) (fuel barrier_num : ℕ) (b : Barrier) (id num_ues : ℕ) (m : Shared) where
  barrier_wait_absent :
      ssmp_num_barriers ≤ barrier_num
      → barrier_wait o fuel (pos barrier_num) b id num_ues m ≡ done m
  unfolding barrier_wait
  barrier_wait_absent h =
      let shut : ltb barrier_num ssmp_num_barriers ≡ false = ground arith in rw (shut) refl

  barrier_wait-none :
      barrier_num < ssmp_num_barriers
      → count_part b id num_ues ≡ none
      → barrier_wait o fuel (pos barrier_num) b id num_ues m ≡ done m
  unfolding barrier_wait
  barrier_wait-none h e =
      let found : ltb barrier_num ssmp_num_barriers ≡ true = ground arith in rw (found, e) refl

  barrier_wait-some :
      (num_part : ℕ)
      → barrier_num < ssmp_num_barriers
      → count_part b id num_ues ≡ some num_part
      → barrier_wait o fuel (pos barrier_num) b id num_ues m ≡ (
          await (o.loop 0) is_shut fuel 0 m >>= λ shut.
          await (o.loop 1) is_open fuel 0 (take_ticket o num_part shut) >>= λ opened.
          done (give_ticket o opened))
  unfolding barrier_wait
  barrier_wait-some num_part h e =
      let found : ltb barrier_num ssmp_num_barriers ≡ true = ground arith in rw (found, e) refl

-- Whatever the other processes do, in steps that `others` allows: a call of `ssmp_barrier_wait` on SPARC
-- with a number that is not negative, if it returns, has either left the barrier as it was, for a
-- number that is too large or a process that does not take part, or it is a run of the step relation of the barrier on x86, from outside to outside
-- between such steps, in which the process has arrived once and passed once.
pub barrier_wait-Walk :
    (o : Others) (others : Shared → Shared → Type 0)
    → ((i t : ℕ) (m : Shared) → others m (o.loop i t m))
    → ((k : ℕ) (m : Shared) → others m (o.gap k m))
    → (b : Barrier) (barrier_num id num_ues fuel a q : ℕ) (m m' : Shared)
    → barrier_wait o fuel (pos barrier_num) b id num_ues m ≡ done m'
    → (((ssmp_num_barriers ≤ barrier_num) ⊎ (Barrier.count_part b id num_ues ≡ none)) × (m' ≡ m))
      ⊎ ((num_part : ℕ) × (Barrier.count_part b id num_ues ≡ some num_part)
          × Walk (some num_part) others m (at_pc outside a q) m' (at_pc outside (a + 1) (q + 1)))
barrier_wait-Walk o others ok_loop ok_gap b num id num_ues fuel a q m m' h =
    elim (dec_lt num ssmp_num_barriers) [
      | no at_least ↦
          let above : ssmp_num_barriers ≤ num = omega arith in
          inl (
            inl above,
            done_injective (sym h ∙ barrier_wait_absent o fuel num b id num_ues m above),
          )
      | yes below ↦ elim (Option-cases (count_part b id num_ues)) [
        | inl e ↦ inl (
          inr (sym (count_part-x86 b id num_ues) ∙ e),
          done_injective (sym h ∙ barrier_wait-none o fuel num b id num_ues m below e),
        )
        | inr (num_part, e) ↦
            let x86 = sym (count_part-x86 b id num_ues) ∙ e in
            inr (
              num_part,
              x86,
              call-Walk o others ok_loop ok_gap a q num_part fuel m m'
                  (sym (barrier_wait-some o fuel num b id num_ues m num_part below e) ∙ h),
            )
      ]
    ]

module _ (o : Others) (num_part fuel : ℕ) where
  first_loop_returns :
      (m : Shared)
      → Free o fuel m
      → (shut : Shared) × (await (o.loop 0) is_shut fuel 0 m ≡ done shut)
  unfolding Free memory is_shut
  first_loop_returns m (k, lt, free) =
      await_total (o.loop 0) m is_shut k fuel 0 (memory (o.loop 0) m (suc k)) lt (ground arith)

  second_loop_returns :
      (s : Shared)
      → Opens o num_part fuel
      → (opened : Shared) × (await (o.loop 1) is_open fuel 0 (take_ticket o num_part s)
          ≡ done opened)
  unfolding Opens memory is_open
  second_loop_returns s opens =
      let (k, lt, raised) = opens s in
      let taken : Shared = take_ticket o num_part s in
      await_total (o.loop 1) taken is_open k fuel 0 (memory (o.loop 1) taken (suc k)) lt
        (ground arith)

  -- the part of the call behind the counting returns
  call_returns :
      (m : Shared)
      → Free o fuel m
      → Opens o num_part fuel
      → (m' : Shared) × ((await (o.loop 0) is_shut fuel 0 m >>= λ shut.
            await (o.loop 1) is_open fuel 0 (take_ticket o num_part shut) >>= λ opened.
            done (give_ticket o opened))
          ≡ done m')
  call_returns m free opens =
      let (shut, first) = first_loop_returns m free in
      let (opened, second) = second_loop_returns shut opens in
      (
        give_ticket o opened,
        >>=_returns (await (o.loop 0) is_shut fuel 0 m) _ first (
            >>=_returns (await (o.loop 1) is_open fuel 0 (take_ticket o num_part shut)) _ second
              refl),
      )

-- If the other processes change the barrier in steps that `others` allows, some look of the first loop
-- does not see `cleared == 1`, and behind any arrival some look of the second does not see `cleared == 0`,
-- each within the fuel, then a call of `ssmp_barrier_wait` on SPARC by a process that takes part in a
-- barrier that exists returns, and it is a run of the step relation of the barrier on x86, from outside
-- to outside between such steps, in which the process has arrived once and passed once.
pub barrier_wait-Walk_total :
    (o : Others) (others : Shared → Shared → Type 0)
    → ((i t : ℕ) (m : Shared) → others m (o.loop i t m))
    → ((k : ℕ) (m : Shared) → others m (o.gap k m))
    → (b : Barrier) (barrier_num id num_ues num_part fuel a q : ℕ) (m : Shared)
    → barrier_num < ssmp_num_barriers
    → Barrier.count_part b id num_ues ≡ some num_part
    → Free o fuel m
    → Opens o num_part fuel
    → (m' : Shared) × (barrier_wait o fuel (pos barrier_num) b id num_ues m ≡ done m')
      × Walk (some num_part) others m (at_pc outside a q) m' (at_pc outside (a + 1) (q + 1))
barrier_wait-Walk_total o others ok_loop ok_gap b num id num_ues num_part fuel a q m below e free
      opens =
    let (m', ret) = call_returns o num_part fuel m free opens in
    (
      m',
      barrier_wait-some o fuel num b id num_ues m num_part below (count_part-x86 b id num_ues ∙ e)
          ∙ ret,
      call-Walk o others ok_loop ok_gap a q num_part fuel m m' ret,
    )
