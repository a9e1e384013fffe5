-- ===== src/Mailbox.antt =====
-- What a buffer between two processes promises to `ssmp_send` and `ssmp_recv_from` of
-- include/ssmp.h, whatever the port: a mailbox of one letter.
use ssmp.Base.{◌<◌, arith, ℕ, zero, suc, ◌≡◌, refl, List, [], ◌∷◌, ◌++◌, Option, none, some, ap}

-- the first `d` double words of a message
abbrev pub words : ℕ → (ℕ → ℕ) → List ℕ
words zero m = []
words (suc d) m = m 0 ∷ words d (λ j. m (suc j))

pub words_ext : (d : ℕ) (m m' : ℕ → ℕ) → ((j : ℕ) → j < d → m j ≡ m' j) → words d m ≡ words d m'
words_ext zero m m' same = refl
words_ext (suc d) m m' same = grind (
  arith,
  same 0 (omega arith),
  words_ext d (λ j. m (suc j)) (λ j. m' (suc j)) (λ j lt. same (suc j) (omega arith)),
)

-- what a client sees: a call that returns
pub data Event : Type 0 where
  sends : (m : List ℕ) → Event
  receives : (m : List ℕ) → Event

-- the mailbox before and after an event
pub data Serves : Option (List ℕ) → Event → Option (List ℕ) → Type 0 where
  put_letter : {m : List ℕ} → Serves none (sends m) (some m)
  take_letter : {m : List ℕ} → Serves (some m) (receives m) none

-- the events that bring an empty mailbox to a state, the last of them first
pub data Trace : List Event → Option (List ℕ) → Type 0 where
  nothing_yet : Trace [] none
  then_event :
      {es : List Event} {q q' : Option (List ℕ)} {e : Event}
      → Trace es q
      → Serves q e q'
      → Trace (e ∷ es) q'

abbrev pub sent_of : List Event → List (List ℕ)
sent_of [] = []
sent_of (sends m ∷ es) = m ∷ sent_of es
sent_of (receives m ∷ es) = sent_of es

abbrev pub received_of : List Event → List (List ℕ)
received_of [] = []
received_of (sends m ∷ es) = received_of es
received_of (receives m ∷ es) = m ∷ received_of es

abbrev pub letter : Option (List ℕ) → List (List ℕ)
letter none = []
letter (some m) = m ∷ []

-- What was sent is what was received and the letter in the mailbox.
pub sent_of-received_of :
    {es : List Event} {q : Option (List ℕ)} → Trace es q → sent_of es ≡ letter q ++ received_of es
sent_of-received_of nothing_yet = refl
sent_of-received_of (then_event {q = none} tr (put_letter {m})) =
    ap (λ ms. m ∷ ms) (sent_of-received_of tr)
sent_of-received_of (then_event tr take_letter) = sent_of-received_of tr
