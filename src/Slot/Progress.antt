-- ===== src/Slot/Progress.antt =====
-- That a buffer of src/platform/generic/ssmp_platf.c blocks nobody for ever.
use ssmp.Base.{
  ℕ, ◌+◌, ◌-◌, ◌≤◌, ◌<◌, ◌≡◌, ◌≢◌, ◌⊎◌, inl, inr, arith, ap, Bool, dec_lt, ℕ_discrete, ◌∙◌,
}
use ssmp.Slot.{
  Stage, away, looking, moving, Slot, Step, find_empty, store, store_state, end_send, find_messg,
  load, empty, Reach,
}
use ssmp.Slot.Invariant.Defs.{moved, storing, loading, IsLast, Inv, Stage-cases}
use ssmp.Slot.Invariant.{Reach-Inv}

-- how far a process is from its return
abbrev pub way : ℕ → Stage → ℕ
way d away = 0
way d looking = d + 2
way d (moving k) = d + 1 - k

abbrev pub work : ℕ → Slot → ℕ
work d s = way d s.sender + way d s.receiver

-- A step that brings a process nearer to its return.
abbrev pub Advances : (atomic : Bool) (d : ℕ) (at : ℕ → ℕ) → Slot → Type 0
Advances atomic d at s = (t : Slot) × Step atomic d at s t × (work d t < work d s)

module _ (atomic : Bool) (d : ℕ) (at : ℕ → ℕ) (l : IsLast d at) (s : Slot)
    (inv : Inv atomic d at s) where
  sender_moves : (k : ℕ) → s.sender ≡ moving k → Advances atomic d at s
  sender_moves k e =
      let far : way d s.sender ≡ d + 1 - k = ap (way d) e in
      let within : k ≤ d = omega (arith, inv.sender_within, ap moved e) in
      elim (dec_lt k d) [
        | yes more ↦ elim (ℕ_discrete (at k + 1) d) [
          | yes state_word ↦ (_, store_state e more state_word, omega (arith, far))
          | no plain ↦ (_, store e more (omega (arith, l.inside k more)), omega (arith, far))
        ]
        | no end ↦
            let all : k ≡ d = omega arith in (_, end_send (e ∙ ap moving all), omega (arith, far))
      ]

  receiver_moves : (k : ℕ) → s.receiver ≡ moving k → Advances atomic d at s
  receiver_moves k e =
      let far : way d s.receiver ≡ d + 1 - k = ap (way d) e in
      let within : k ≤ d = omega (arith, inv.receiver_within, ap moved e) in
      elim (dec_lt k d) [
        | yes more ↦ (_, load e more, omega (arith, far))
        | no end ↦
            let all : k ≡ d = omega arith in (_, empty (e ∙ ap moving all), omega (arith, far))
      ]

  takes_empty : s.sender ≡ looking → s.flag ≡ 0 → Advances atomic d at s
  takes_empty e free =
      let far : way d s.sender ≡ d + 2 = ap (way d) e in (_, find_empty e free, omega (arith, far))

  takes_messg : s.receiver ≡ looking → s.flag ≡ 1 → Advances atomic d at s
  takes_messg e up =
      let far : way d s.receiver ≡ d + 2 = ap (way d) e in (_, find_messg e up, omega (arith, far))

  -- one of the two waits for a call of the other
  abbrev Waits : Type 0
  Waits =
      ((s.sender ≡ looking) × (s.flag ≡ 1) × (s.receiver ≡ away))
      ⊎ ((s.receiver ≡ looking) × (s.flag ≡ 0) × (s.sender ≡ away))

  not_locked : storing d s.sender ≡ 0 → loading s.receiver ≡ 0 → (s.flag ≡ 0) ⊎ (s.flag ≡ 1)
  not_locked e e' = omega (arith, inv.settled (omega (arith, e, e')))

  sender_looks : s.sender ≡ looking → Advances atomic d at s ⊎ Waits
  sender_looks e = elim (Stage-cases s.receiver) [
    | inr (inr (k, e')) ↦ inl (receiver_moves k e')
    | inr (inl e') ↦ elim (not_locked (ap (storing d) e) (ap loading e')) [
      | inl free ↦ inl (takes_empty e free)
      | inr up ↦ inl (takes_messg e' up)
    ]
    | inl e' ↦ elim (not_locked (ap (storing d) e) (ap loading e')) [
      | inl free ↦ inl (takes_empty e free)
      | inr up ↦ inr (inl (e, up, e'))
    ]
  ]

  receiver_alone : s.sender ≡ away → s.receiver ≢ away → Advances atomic d at s ⊎ Waits
  receiver_alone e in_call = elim (Stage-cases s.receiver) [
    | inl e' ↦ absurd (in_call e')
    | inr (inr (k, e')) ↦ inl (receiver_moves k e')
    | inr (inl e') ↦ elim (not_locked (ap (storing d) e) (ap loading e')) [
      | inl free ↦ inr (inr (e', free, e))
      | inr up ↦ inl (takes_messg e' up)
    ]
  ]

  advances : (s.sender ≢ away) ⊎ (s.receiver ≢ away) → Advances atomic d at s ⊎ Waits
  advances in_call = elim (Stage-cases s.sender) [
    | inr (inr (k, e)) ↦ inl (sender_moves k e)
    | inr (inl e) ↦ sender_looks e
    | inl e ↦ elim in_call [
      | inl sends ↦ absurd (sends e)
      | inr receives ↦ receiver_alone e receives
    ]
  ]

-- No deadlock. For messages of `d` > 0 words whose last stored word is the one with the state, with
-- USE_ATOMIC or without it, in every state that is reached: if a process is in its call, then some step
-- brings a process nearer to its return, or one process waits for a call of the other, the sender
-- before a full buffer or the receiver before an empty one.
pub slot-Advances :
    {atomic : Bool} {d : ℕ} {at junk : ℕ → ℕ} {s : Slot}
    → IsLast d at
    → Reach atomic d at junk s
    → (s.sender ≢ away) ⊎ (s.receiver ≢ away)
    → Advances atomic d at s
      ⊎ ((s.sender ≡ looking) × (s.flag ≡ 1) × (s.receiver ≡ away))
      ⊎ ((s.receiver ≡ looking) × (s.flag ≡ 0) × (s.sender ≡ away))
slot-Advances {atomic} {d} {at} {junk} {s} l r in_call =
    advances atomic d at l s (Reach-Inv atomic d at l junk s r) in_call
