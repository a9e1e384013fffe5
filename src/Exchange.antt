-- ===== src/Exchange.antt =====
-- Two processes of src/arch/x86/ssmp_arch.c and src/platform/generic/ssmp_platf.c together: the arrays
-- that `ssmp_mem_init_platf` gives each of them, and a message through the memory that they share.
mod Tests
use ssmp.Base.{
  zero, ℕ, suc, ◌+◌, ◌≤◌, ◌<◌, ◌≡◌, ◌≢◌, refl, arith, ap, ap₂, sym, ◌∙◌, subst, List, Option, none,
  some, Bool, true, [], get_elem?, if◌then◌else◌, ◌==◌, ◌&&◌,
}
use ssmp.Base.Outcome.{done}
use ssmp.Message.{Msg, Slots, ssmp_buf_empty, ssmp_buf_messg, state}
use ssmp.Message.Laws.{Sent, Taken}
use ssmp.Poll.{Env, memory}
use ssmp.Generic.{send, recv_from}
use ssmp.Generic.Alone.{quiet, send_alone, recv_from_alone}
use ssmp.Layout.{x86_send_buf, x86_recv_buf}
use ssmp.Layout.Pairs.{x86_buffers_agree}
use ssmp.Startup.{Os, Place, Arrays, mem_init}
use ssmp.Startup.Tables.{IsKind, IsComplete, mem_init_lem}

-- the shared memories: the buffer at each place of each owner
abbrev pub Memory : Type 0
Memory = ℕ → ℕ → Msg

abbrev unset : Msg
unset = record { words = []; pad = 0 }

abbrev read_place : Memory → Option (Option Place) → Msg
read_place mem none = unset
read_place mem (some none) = unset
read_place mem (some (some (owner, place))) = mem owner place

-- the buffers that a process reaches through an array of pointers
abbrev pub slots_of : List (Option Place) → Memory → Slots
slots_of bufs mem p = read_place mem (get_elem? bufs p)

-- the memory after a write to one place
abbrev pub write_place : Memory → ℕ → ℕ → Msg → Memory
write_place mem owner place m o p = if o == owner && p == place then m else mem o p

module _ (mem : Memory) (owner place : ℕ) (m : Msg) where
  write_place_self : write_place mem owner place m owner place ≡ m
  write_place_self = ground arith

  read-write_ne :
      (o : Option (Option Place))
      → o ≢ some (some (owner, place))
      → read_place (write_place mem owner place m) o ≡ read_place mem o
  read-write_ne none ne = refl
  read-write_ne (some none) ne = refl
  read-write_ne (some (some (o, p))) ne =
      ground (arith, λ (e : o ≡ owner) (e' : p ≡ place). ne (ap₂ (λ o p. some (some (o, p))) e e'))

  write_place_ne :
      (bufs : List (Option Place)) (k : ℕ)
      → get_elem? bufs k ≢ some (some (owner, place))
      → slots_of bufs (write_place mem owner place m) k ≡ slots_of bufs mem k
  write_place_ne bufs k ne = read-write_ne (get_elem? bufs k) ne

  slots_of_place :
      (bufs : List (Option Place)) (k : ℕ)
      → get_elem? bufs k ≡ some (some (owner, place))
      → slots_of bufs mem k ≡ mem owner place
  slots_of_place bufs k e = ap (read_place mem) e

some_ne :
    {o : Option (Option Place)} {p : Option Place} {place : Place}
    → o ≡ some p
    → p ≢ some place
    → o ≢ some (some place)
some_ne e ne e' = ne (ap strip (sym e ∙ e'))
  where
    strip : Option (Option Place) → Option Place
    strip none = none
    strip (some p) = p

-- Among two processes or more, let `i` and `j` be two different ones below `n`. If at the start of each
-- every shared memory is created with its size, or exists and is opened, and is mapped, then the start of
-- both succeeds. Let the buffer from `i` to `j` be empty. If `i` calls `ssmp_send(j)` and then `j` calls `ssmp_recv_from(i)`,
-- and nobody disturbs these calls, then both return: `j` receives the words that `i` has sent, through
-- the one place that the arrays of both have for the pair, which is empty again afterwards, and its
-- buffers from all others are as they were.
pub recv_from-send_x86 :
    (os_i os_j : Os)
    → IsKind os_i
    → IsKind os_j
    → (atomic : Bool) (n i j fuel : ℕ) (msg : Msg) (mem : Memory) → 2 ≤ n
    → i < n
    → j < n
    → i ≢ j
    → ((place : ℕ) → x86_send_buf i j ≡ some (j, place) → state (mem j place) ≡ ssmp_buf_empty)
    → (a b : Arrays) × (place : ℕ) × (m got : Msg) × (s₁ s₂ : Slots) × (mem_init os_i true
          (done tt)
          (done tt)
          i
          n
        ≡ done a)
      × (mem_init os_j true (done tt) (done tt) j n ≡ done b)
      × (x86_send_buf i j ≡ some (j, place))
      × (send atomic quiet (suc fuel) j msg (slots_of a.send_buf mem) ≡ done (m, s₁))
      × (recv_from atomic quiet (suc fuel) i (slots_of b.recv_buf (write_place mem j place (s₁ j)))
          ≡ done (got, s₂))
      × (got.words ≡ msg.words)
      × (state (s₂ i) ≡ ssmp_buf_empty)
      × ((k : ℕ) → k < n → k ≢ i → k ≢ j → s₂ k ≡ slots_of b.recv_buf mem k)
recv_from-send_x86 os_i os_j kind_i kind_j atomic n i j fuel msg mem two li lj ne free =
    let (a, start_i, tables_i) = mem_init_lem os_i kind_i n i two li in
    let (b, start_j, tables_j) = mem_init_lem os_j kind_j n j two lj in
    let (place, to_j, from_i, inside, distinct) = x86_buffers_agree n i j li lj ne in
    let out : slots_of a.send_buf mem j ≡ mem j place =
      slots_of_place mem j place msg a.send_buf j (tables_i.sends j lj ∙ ap some to_j) in
    let (m, s₁, sent, ok) =
      send_alone atomic fuel (slots_of a.send_buf mem) j msg (rw out (free place to_j)) in
    let mem' : Memory = write_place mem j place (s₁ j) in
    let into : slots_of b.recv_buf mem' i ≡ s₁ j =
      slots_of_place mem' j place msg b.recv_buf i (tables_j.recvs i li ∙ ap some from_i)
      ∙ write_place_self mem j place (s₁ j) in
    let (got, s₂, received, taken) =
      recv_from_alone atomic fuel (slots_of b.recv_buf mem') i (rw into ok.flagged) in
    (
      a,
      b,
      place,
      m,
      got,
      s₁,
      s₂,
      start_i,
      start_j,
      to_j,
      sent,
      received,
      taken.words ∙ ap (λ (x : Msg). x.words) into ∙ ok.words,
      taken.emptied,
      λ k lk ki kj.
          taken.others k (λ e. ki (sym e))
          ∙ write_place_ne mem j place (s₁ j) b.recv_buf k
              (some_ne (tables_j.recvs k lk) (distinct k lk kj ki)),
    )
