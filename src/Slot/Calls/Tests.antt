-- ===== src/Slot/Calls/Tests.antt =====
-- A message of two words to process 2 in an empty buffer, and its receiving, with nobody else.
use ssmp.Base.{◌≡◌, refl, arith, false, [], ◌∷◌}
use ssmp.Base.Outcome.{done}
use ssmp.Message.{Msg, Slots, ssmp_buf_messg, state, set_state}
use ssmp.Poll.{Env, memory}
use ssmp.Generic.{send, recv_from}
use ssmp.Slot.{moving, Slot, fresh_slot}
use ssmp.Slot.Calls.{line, in_order, Shows, DoneBySteps}
use ssmp.Slot.Calls.Sender.{Waits, Sends, send-Sends_total}
use ssmp.Slot.Calls.Receiver.{Looks, Receives, recv_from-Receives_total}

abbrev blank : Msg
blank = record { words = []; pad = 0 }

abbrev hello : Msg
hello = record { words = 7 ∷ 8 ∷ []; pad = 1 }

abbrev all_blank : Slots
all_blank i = blank

abbrev all_hello : Slots
all_hello i = hello

abbrev nobody : Env Slots
nobody t m = m

abbrev fresh_buffer : Slot
fresh_buffer = fresh_slot false 8 in_order (line blank)

-- the buffer when the word with the state has been stored, before the sender returns
abbrev posted : Slot
posted = record fresh_buffer {
  flag = 1;
  buf = line hello;
  sender = moving 8;
  outgoing = line hello;
  sent = 1;
  log = λ n. line hello;
}

nobody-Waits : DoneBySteps false fresh_buffer Waits nobody 2
nobody-Waits t m s reached shows = record {
  slot = s;
  reached = reached;
  shows = shows;
  kept = record { same_sender = refl; same_outgoing = refl; same_sent = refl };
}

nobody-Looks : DoneBySteps false posted Looks nobody 2
nobody-Looks t m s reached shows = record {
  slot = s;
  reached = reached;
  shows = shows;
  kept = record { same_receiver = refl; same_received = refl };
}

blank-Shows : Shows blank fresh_buffer
unfolding state
blank-Shows = record { flag_same = refl; words_same = λ i lt. refl; pad_same = refl }

blank_found : state (memory nobody all_blank 1 2) ≡ 0
unfolding state memory
blank_found = refl

send-Sends_total_example :
    (m' : Slots) × (send false nobody 1 2 hello all_blank
      ≡ done (set_state ssmp_buf_messg hello, m'))
    × (m' 2 ≡ set_state ssmp_buf_messg hello)
    × Sends false fresh_buffer 0 (set_state ssmp_buf_messg hello)
send-Sends_total_example =
    send-Sends_total false fresh_buffer nobody 2 nobody-Waits 0 1 hello all_blank refl blank-Shows
      (omega arith) blank_found

hello-Shows : Shows hello posted
unfolding state
hello-Shows = record { flag_same = refl; words_same = λ i lt. refl; pad_same = refl }

hello_found : state (memory nobody all_hello 1 2) ≡ 1
unfolding state memory
hello_found = refl

recv_from-Receives_total_example :
    (msg : Msg) × (m' : Slots) × (recv_from false nobody 1 2 all_hello ≡ done (msg, m'))
    × Receives false posted 0 msg (m' 2)
recv_from-Receives_total_example =
    recv_from-Receives_total false posted nobody 2 nobody-Looks 0 1 all_hello refl hello-Shows
      (omega arith) hello_found
