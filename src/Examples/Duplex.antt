-- ===== src/Examples/Duplex.antt =====
-- One connection of the LAN mode: linux/nethogs/main.py.
use til.Prelude.{
  ◌||◌, ◌⊎◌, ◌+◌, ◌-◌, ◌*◌, ◌≡◌, ◌≤◌, refl, true, false, Option, none, some, List, [], ◌∷◌, ◌++◌,
  length,
}
use til.NetLoad.Internet.{chunk}
use til.NetLoad.Lan.{
  both, send, recv, announce, opposite, opposite_byte, runs_sender, runs_receiver,
}
use til.NetLoad.Lan.Duplex.{
  send_check, push, send_count, recv_check, take, recv_count, Connection, Event, on_up, on_down,
  close_client, establish, new_link, run, step, with_up, with_down, link_step, sender_step,
  receiver_step, is_sending, after_push, sender_over, receiver_over,
}
use til.NetLoad.Lan.Duplex.Counted.{Balanced, run-Balanced}
use til.NetLoad.Lan.Duplex.Threads.{client, server}
use til.NetLoad.Lan.Duplex.Closing.{run-IsOver, is_to_send, run-silent}
use til.NetLoad.Lan.Duplex.Progress.{CanMove, IsBlocked}
use til.NetLoad.Lan.Duplex.Blocked.{run-CanMove}
use til.NetLoad.Lan.Duplex.Stopping.{run-stopping}

abbrev or_else : Connection → Option Connection → Connection
or_else c none = c
or_else c (some d) = d

-- The client only sends. One payload goes out in two pieces; the first of them is received.
abbrev schedule : List Event
schedule =
    on_up (send_check false)
    ∷ on_up (push 10)
    ∷ on_up (recv_check false)
    ∷ on_up (take 10)
    ∷ on_up (push (chunk - 10))
    ∷ on_up recv_count
    ∷ on_up send_count
    ∷ []

-- Then the client is told to stop, and closes.
abbrev stop_schedule : List Event
stop_schedule = on_up (send_check true) ∷ close_client ∷ []

abbrev lan : Connection
lan =
    or_else
      (record {
        up = new_link send recv;
        down = new_link recv send;
        client_open = true;
        server_open = true;
      })
      (establish send)

abbrev after_all : Connection
after_all = or_else lan (run schedule lan)

established : establish send ≡ some lan
unfolding establish opposite opposite_byte announce
established = refl

ran : run schedule lan ≡ some after_all
unfolding run step with_up with_down link_step sender_step receiver_step is_sending after_push
    sender_over receiver_over establish opposite opposite_byte announce new_link runs_sender
    runs_receiver
ran = refl

abbrev stopped : Connection
stopped = or_else lan (run stop_schedule after_all)

ran_on : run (schedule ++ stop_schedule) lan ≡ some stopped
unfolding run step with_up with_down link_step sender_step receiver_step is_sending after_push
    sender_over receiver_over establish opposite opposite_byte announce new_link runs_sender
    runs_receiver
ran_on = refl

stopped_short : run stop_schedule after_all ≡ some stopped
unfolding run step with_up with_down link_step sender_step receiver_step is_sending after_push
    sender_over receiver_over establish opposite opposite_byte announce new_link runs_sender
    runs_receiver
stopped_short = refl

test_counted : (after_all.up.sent ≡ chunk) × (after_all.up.recv ≡ 10)
unfolding run step with_up with_down link_step sender_step receiver_step is_sending after_push
    sender_over receiver_over establish opposite opposite_byte announce new_link runs_sender
    runs_receiver
test_counted = (refl, refl)

run-Balanced_example :
    Balanced after_all.up
    × Balanced after_all.down
    × (after_all.up.recv ≤ after_all.up.sent + chunk)
    × (after_all.down.recv ≤ after_all.down.sent + chunk)
run-Balanced_example = run-Balanced send schedule established ran

was_closed : stopped.client_open ≡ false
unfolding run step with_up with_down link_step sender_step receiver_step is_sending after_push
    sender_over receiver_over establish opposite opposite_byte announce new_link runs_sender
    runs_receiver
was_closed = refl

run-IsOver_example :
    (sender_over stopped.up.sender ≡ true) × (receiver_over stopped.down.receiver ≡ true)
run-IsOver_example =
    run-IsOver send client (schedule ++ stop_schedule) established ran_on was_closed

quiet : is_to_send server send ≡ false
unfolding runs_receiver
quiet = refl

run-silent_example : (stopped.down.sent ≡ 0) × (stopped.down.recv ≡ 0)
run-silent_example = run-silent send server (schedule ++ stop_schedule) established ran_on quiet

run-stopping_example : length stop_schedule ≤ 2 * chunk + 12
run-stopping_example =
    run-stopping send schedule stop_schedule established ran (refl, (tt, tt)) stopped_short

still_open : after_all.client_open || after_all.server_open ≡ true
unfolding run step with_up with_down link_step sender_step receiver_step is_sending after_push
    sender_over receiver_over establish opposite opposite_byte announce new_link runs_sender
    runs_receiver
still_open = refl

run-CanMove_example : CanMove after_all ⊎ ((send ≡ both) × IsBlocked after_all)
run-CanMove_example = run-CanMove send schedule established ran still_open

-- Both ends send and receive. Both are told to stop while their receivers wait.
abbrev pair : Connection
pair = or_else lan (establish both)

abbrev waiting_schedule : List Event
waiting_schedule =
    on_up (recv_check false)
    ∷ on_down (recv_check false)
    ∷ on_up (send_check true)
    ∷ on_down (send_check true)
    ∷ []

waiting_schedule-IsBlocked : IsBlocked (or_else pair (run waiting_schedule pair))
unfolding run step with_up with_down link_step sender_step receiver_step is_sending after_push
    sender_over receiver_over establish opposite opposite_byte announce new_link runs_sender
    runs_receiver
waiting_schedule-IsBlocked = record {
  open_both = (refl, refl);
  senders = (refl, refl);
  receivers = (refl, refl);
  flights = (refl, refl);
}
