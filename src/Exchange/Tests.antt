-- ===== src/Exchange/Tests.antt =====
-- Process 1 sends to process 2 among three, and the theorem at it.
use ssmp.Base.{ℕ, ◌<◌, ◌≡◌, ◌≢◌, refl, arith, true, some, ◌==◌, [], ◌∷◌}
use ssmp.Base.Outcome.{done}
use ssmp.Message.{Msg, Slots, state, ssmp_buf_empty}
use ssmp.Generic.{send, recv_from}
use ssmp.Layout.{x86_send_buf}
use ssmp.Startup.{Os, Arrays, mem_init}
use ssmp.Startup.Tables.{IsKind}
use ssmp.Exchange.{Memory, slots_of, write_place, quiet, recv_from-send_x86}

-- Each process creates its own memory, and finds those of the others.
abbrev willing : ℕ → Os
willing id = record {
  create = λ k. k == id;
  existed = λ _. true;
  reopen = λ _. true;
  truncate = λ _. true;
  map = λ k. 8192;
}

willing-IsKind : (id : ℕ) → IsKind (willing id)
willing-IsKind id = record { opened = λ k. ground arith; mapped = λ k. omega arith }

abbrev all_empty : Memory
all_empty owner place = record { words = []; pad = 0 }

abbrev hello : Msg
hello = record { words = 3 ∷ 4 ∷ []; pad = 0 }

all_empty-state : (place : ℕ) → state (all_empty 2 place) ≡ ssmp_buf_empty
unfolding state
all_empty-state place = refl

recv_from-send_x86_example :
    (a b : Arrays) × (place : ℕ) × (m got : Msg) × (s₁ s₂ : Slots) × (mem_init
        (willing 1)
        true
        (done tt)
        (done tt)
        1
        3
      ≡ done a)
    × (mem_init (willing 2) true (done tt) (done tt) 2 3 ≡ done b)
    × (x86_send_buf 1 2 ≡ some (2, place))
    × (send true quiet 1 2 hello (slots_of a.send_buf all_empty) ≡ done (m, s₁))
    × (recv_from true quiet 1 1 (slots_of b.recv_buf (write_place all_empty 2 place (s₁ 2)))
        ≡ done (got, s₂))
    × (got.words ≡ hello.words)
    × (state (s₂ 1) ≡ ssmp_buf_empty)
    × ((k : ℕ) → k < 3 → k ≢ 1 → k ≢ 2 → s₂ k ≡ slots_of b.recv_buf all_empty k)
recv_from-send_x86_example =
    recv_from-send_x86 (willing 1) (willing 2) (willing-IsKind 1) (willing-IsKind 2) true 3 1 2 0
      hello all_empty (omega arith) (omega arith) (omega arith) (omega arith)
      (λ place e. all_empty-state place)
