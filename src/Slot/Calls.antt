-- ===== src/Slot/Calls.antt =====
-- The calls of src/platform/generic/ssmp_platf.c that Generic models, which move a whole message at once,
-- beside the steps of Slot, which move a word at a time.
pub mod Sender
pub mod Receiver
mod Tests
use ssmp.Base.{
  ℕ, zero, suc, ◌+◌, ◌*◌, ◌/◌, ◌<◌, ◌^◌, ◌≡◌, refl, sym, ap, subst, ◌∙◌, arith, Bool, List, Option,
  none, some, if◌then◌else◌, ◌==◌, get_or, ℕ_discrete, dec_lt, Option-cases, inl, inr,
}
use ssmp.Base.Family.{update, update_self, update_ne}
use ssmp.Base.Outcome.{done, ◌>>=◌, >>=-done}
use ssmp.Message.{Msg, Slots, ssmp_buf_empty, ssmp_buf_messg, state, set_state, acquire}
use ssmp.Message.Laws.{acquire_sound, state-set_state}
use ssmp.Poll.{Env, await}
use ssmp.Generic.{send}
use ssmp.Slot.{
  Stage, away, looking, moving, Slot, Step, call_send, find_empty, store, store_state, end_send,
  Reach, then_step,
}

-- the eight-byte words of a message, of which the last is the union
abbrev pub line : Msg → ℕ → ℕ
line m i =
    if i == 7 then m.pad else get_or m.words (2 * i) 0 + 2 ^ 32 * get_or m.words (2 * i + 1) 0

abbrev pub in_order : ℕ → ℕ
in_order k = k

-- The buffer of Slot holds the message: the last word up to its lowest byte, which is `flag`.
pub record Shows (m : Msg) (s : Slot) : Type 0 where
  pub flag_same : s.flag ≡ state m
  pub words_same : (i : ℕ) → i < 7 → s.buf i ≡ line m i
  pub pad_same : s.buf 7 / 2 ^ 8 ≡ m.pad / 2 ^ 8

-- The words but the last depend on the words of the message.
pub line_words : (m m' : Msg) → m.words ≡ m'.words → (i : ℕ) → i < 7 → line m i ≡ line m' i
line_words m m' same i lt = ap (λ ws. line (record m { words = ws }) i) same ∙ apart
  where
    apart : line (record m { words = m'.words }) i ≡ line m' i
    apart = ground arith

-- The state is the lowest byte.
pub pad_set_state : (v : ℕ) (m : Msg) → (set_state v m).pad / 2 ^ 8 ≡ m.pad / 2 ^ 8
unfolding set_state
pad_set_state v m = omega arith

-- Steps from one state of the buffer and its two processes to another.
pub data Leads (atomic : Bool) (start : Slot) : Slot → Type 0 where
  stay : Leads atomic start start
  go_on : {s t : Slot} → Leads atomic start s → Step atomic 8 in_order s t → Leads atomic start t

-- They lead from a state that can be reached to one that can be reached.
Reach-Leads :
    {atomic : Bool} {junk : ℕ → ℕ} {s t : Slot}
    → Reach atomic 8 in_order junk s
    → Leads atomic s t
    → Reach atomic 8 in_order junk t
Reach-Leads r stay = r
Reach-Leads r (go_on l st) = then_step (Reach-Leads r l) st

module _ (atomic : Bool) (start : Slot) where
  abbrev pub Reached : Slot → Type 0
  Reached s = Leads atomic start s

  -- Steps of others lead from `s` to a buffer that shows `m`; `Kept` is what they leave alone.
  pub record Follows (Kept : Slot → Slot → Type 0) (s : Slot) (m : Msg) : Type 0 where
    pub slot : Slot
    pub reached : Reached slot
    pub shows : Shows m slot
    pub kept : Kept s slot

  -- what the others do to the buffer before each look is done by steps
  abbrev pub DoneBySteps : (Slot → Slot → Type 0) → Env Slots → ℕ → Type 0
  DoneBySteps Kept env p =
      (t : ℕ) (m : Slots) (s : Slot) → Reached s → Shows (m p) s → Follows Kept s (env t m p)

  module _ (Kept : Slot → Slot → Type 0) (through : (s t u : Slot) → Kept s t → Kept t u → Kept s u)
      (env : Env Slots) (p : ℕ) (by_steps : DoneBySteps Kept env p) where
    -- the loop on the state
    pub await-Follows :
        {R : Type 0} (try : Slots → Option R) (fuel t : ℕ) (m : Slots) (s : Slot) {r : R}
        → Reached s
        → Shows (m p) s
        → await env try fuel t m ≡ done r
        → (m' : Slots) × (try m' ≡ some r) × Follows Kept s (m' p)
    unfolding await
    await-Follows try zero t m s reached shows h = absurd (cc)
    await-Follows try (suc fuel) t m s {r} reached shows h =
        let f = by_steps t m s reached shows in
        elim (Option-cases (try (env t m))) [
          | inr (r', e) ↦
              let found : done r' ≡ done r = ground arith in
              let same : r' ≡ r = cc found in (env t m, e ∙ ap some same, f)
          | inl e ↦
              let (m', ok, g) =
                await-Follows try fuel (suc t) (env t m) f.slot f.reached f.shows (ground arith) in
              (
                m',
                ok,
                record {
                  slot = g.slot;
                  reached = g.reached;
                  shows = g.shows;
                  kept = through s f.slot g.slot f.kept g.kept;
                },
              )
        ]
