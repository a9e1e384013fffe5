-- ===== src/Barrier/Crossing.antt =====
-- All participants of a barrier get through it: src/arch/x86/ssmp_arch.c.
use ssmp.Base.{
  ℕ, zero, suc, ◌+◌, ◌≤◌, ◌<◌, ◌≡◌, ◌≢◌, ◌⊎◌, refl, arith, ap, subst, sym, ◌∙◌, Option, some,
  ℕ_discrete,
}
use ssmp.Base.Family.{update, update_self, update_ne, le-total}
use ssmp.Barrier.{Barrier, u32, count_part}
use ssmp.Barrier.Count.{weight, everyone, count_part_lem}
use ssmp.Barrier.System.{outside, entering, Proc, Shared, System, Reach, pick, Move, call}
use ssmp.Barrier.Invariant.{IsUsable, Inv, Reach-Inv, Local}
use ssmp.Barrier.Progress.{rank}
use ssmp.Barrier.Leave.{
  Run, stay, go_on, Reach-Run, IsLeft, HasArrived, ranks, outside-Arrived, leave_all, rank-outside,
}

call-Move :
    (cnt : Option ℕ) (m : Shared) (q : Proc) (num_part : ℕ)
    → q.pc ≡ outside
    → cnt ≡ some num_part
    → Move cnt m q m (record q { pc = entering num_part })
call-Move cnt m q num_part e counts =
    subst (λ pc. Move cnt m (record q { pc = pc }) m (record q { pc = entering num_part })) (sym e)
      (call counts)

module _ {b : Barrier} {n : ℕ} (usable : IsUsable b n) where
  counted : (i : ℕ) → i < n → weight b i ≢ 0 → (np : ℕ) × (count_part b i n ≡ some np)
  counted i lt w = (u32 (everyone (weight b) n), count_part_lem b n i lt ∙ ground (arith, w))

  -- Of the processes below `j`, all that take part have called.
  call_all :
      (s : System) (k : ℕ)
      → IsLeft n s
      → ((i : ℕ) → i < n → weight b i ≢ 0 → (s.proc i).arrivals ≡ k)
      → (j : ℕ) → j ≤ n
      → (t : System) × Run b n s t
        × ((i : ℕ) → i < j → weight b i ≢ 0 → HasArrived k (t.proc i).pc (t.proc i).arrivals)
        × ((i : ℕ) → j ≤ i → t.proc i ≡ s.proc i)
  call_all s k outs at_k zero le = (s, stay, (λ i lt w. absurd (omega arith)), λ i le'. refl)
  call_all s k outs at_k (suc j) le =
      let (t, run, called, rest) = call_all s k outs at_k j (omega arith) in
      elim (ℕ_discrete (weight b j) 0) [
        | yes none_of ↦ (
          t,
          run,
          λ i lt w. elim (ℕ_discrete j i) [
            | yes here ↦ absurd (w (sym (ap (weight b) here) ∙ none_of))
            | no before ↦ called i (omega arith) w
          ],
          λ i le'. rest i (omega arith),
        )
        | no part ↦
            let (np, counts) = counted j (omega arith) part in
            let q : Proc = record (t.proc j) { pc = entering np } in
            let out : (t.proc j).pc ≡ outside =
              ap (λ (p : Proc). p.pc) (rest j (omega arith)) ∙ outs j (omega arith) in
            (
              record { mem = t.mem; proc = update t.proc j q },
              go_on run (
                  pick j (omega arith)
                    (call-Move (count_part b j n) t.mem (t.proc j) np out counts)),
              λ i lt w. elim (ℕ_discrete j i) [
                | yes here ↦
                    subst
                      (λ i. HasArrived k (update t.proc j q i).pc (update t.proc j q i).arrivals)
                      here
                      (subst (λ (p : Proc). HasArrived k p.pc p.arrivals)
                        (sym (update_self t.proc j q))
                        (ap (λ (p : Proc). p.arrivals) (rest j (omega arith))
                          ∙ at_k j (omega arith) part))
                | no before ↦
                    subst (λ (p : Proc). HasArrived k p.pc p.arrivals)
                      (sym (update_ne t.proc j i q before)) (called i (omega arith) w)
              ],
              λ i le'. update_ne t.proc j i q (omega arith) ∙ rest i (omega arith),
            )
      ]

  outside-Local :
      (w goal : ℕ) (m : Shared) (q : Proc)
      → Local w goal m q
      → q.pc ≡ outside
      → (q.arrivals ≡ q.passes) × ((w ≡ 0) ⊎ (q.passes ≡ m.round + m.cleared))
  outside-Local w goal m q l e = subst (λ pc. Local w goal m (record q { pc = pc })) e l

  -- Nobody in it, the barrier is passed by all: for fewer than 2^32 processes whose colors (or bits) are 0
  -- or 1 and not all 0, from every reached state in which no process is in the barrier, steps lead to
  -- another one, in which every process that takes part has passed the barrier once more.
  pub all_cross :
      (s : System)
      → Reach b n s
      → IsLeft n s
      → (t : System) × Run b n s t
        × Reach b n t
        × IsLeft n t
        × ((i : ℕ) → i < n → weight b i ≢ 0 → (t.proc i).passes ≡ (s.proc i).passes + 1)
  all_cross s r outs =
      let k : ℕ = s.mem.round + s.mem.cleared in
      let goal : ℕ = everyone (weight b) n in
      let inv : Inv b n s.mem s.proc = Reach-Inv b n usable r in
      let before : (i : ℕ)
          → i < n
          → weight b i ≢ 0
          → ((s.proc i).arrivals ≡ k) × ((s.proc i).passes ≡ k) =
        λ i lt w. omega (
          arith,
          outside-Local (weight b i) goal s.mem (s.proc i) (inv.local i lt) (outs i lt),
          w,
        ) in
      let (c, called, arrivals, rest) =
        call_all s k outs (λ i lt w. (before i lt w).0) n (omega arith) in
      let (t, run, nobody, arrived_all) =
        leave_all usable k (ranks n c) s c r called (omega arith) arrivals in
      let r' : Reach b n t = Reach-Run r run in
      let inv' : Inv b n t.mem t.proc = Reach-Inv b n usable r' in
      let outs' : IsLeft n t = λ i lt.
        rank-outside usable k (t.proc i) (omega (arith, le-total rank n t.proc i lt, nobody)) in
      (
        t,
        run,
        r',
        outs',
        λ i lt w. omega (
          arith,
          outside-Local (weight b i) goal t.mem (t.proc i) (inv'.local i lt) (outs' i lt),
          outside-Arrived k (t.proc i).arrivals (t.proc i).pc (outs' i lt) (arrived_all i lt w),
          before i lt w,
        ),
      )
