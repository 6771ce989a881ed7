-- ===== src/NetLoad/Lan/Duplex.antt =====
-- One connection of the LAN mode from end to end: `client_worker` with `run_duplex` at the client,
-- and the thread of `run_duplex` that `server_main` starts for it. The threads of both processes
-- move in any order; `sendall` hands its bytes over piece by piece. `th.wait` only delays a thread.
use til.Prelude.{
  ℕ, ◌+◌, ◌-◌, Bool, true, false, ◌&&◌, not, Option, none, some, List, [], ◌∷◌, ◌==◌, leb,
  if◌then◌else◌,
}
use til.NetLoad.Internet.{chunk}
use til.NetLoad.Lan.{Direction, runs_sender, runs_receiver, announce, opposite}
pub mod Moves
pub mod Counted
pub mod Threads
pub mod Closing
pub mod Stopping
pub mod Progress
pub mod Blocked

-- Where `sock_sender` stands. `pushing left` is inside `sendall`; `counting` is before `stats.add`.
pub data Sender : Type 0 where
  no_sender : Sender
  checking : Sender
  pushing : ℕ → Sender
  counting : Sender
  done : Sender

-- Where `sock_receiver` stands. `waiting` is inside `recv`; `counting n` has its data.
pub data Receiver : Type 0 where
  no_receiver : Receiver
  checking : Receiver
  waiting : Receiver
  counting : ℕ → Receiver
  done : Receiver

-- One direction: its sender, its receiver, the bytes on the way, and what the two have counted by
-- `stats.add`. `lost` is a record of the proof: bytes of a `sendall` that failed, which went out and
-- were not counted.
pub record Link : Type 0 where
  pub sender : Sender
  pub receiver : Receiver
  pub flight : ℕ
  pub sent : ℕ
  pub recv : ℕ
  pub lost : ℕ

-- What a thread does next. A check comes with what `stop.is_set()` answers.
pub data Act : Type 0 where
  send_check : Bool → Act
  push : ℕ → Act
  send_error : Act
  send_count : Act
  recv_check : Bool → Act
  take : ℕ → Act
  recv_end : Act
  recv_error : Act
  recv_count : Act

unfoldable pub after_push : ℕ → Sender
after_push left = if left == 0 then Sender.counting else pushing left

unfoldable pub sender_step : Act → Sender → Link → Option Link
unfolding after_push
sender_step (send_check stop) checking l =
    some (record l { sender = if stop then Sender.done else pushing chunk })
sender_step (push n) (pushing left) l =
    if leb 1 n && leb n left
    then some (record l { sender = after_push (left - n); flight = l.flight + n })
    else none
sender_step send_error (pushing left) l =
    some (record l { sender = Sender.done; lost = l.lost + (chunk - left) })
sender_step send_count counting l =
    some (record l { sender = Sender.checking; sent = l.sent + chunk })
sender_step _ _ l = none

-- `recv` returns no data once the other end has closed and nothing is on the way.
unfoldable pub receiver_step : Bool → Act → Receiver → Link → Option Link
receiver_step is_open (recv_check stop) checking l =
    some (record l { receiver = if stop then Receiver.done else waiting })
receiver_step is_open (take n) waiting l =
    if leb 1 n && leb n chunk && leb n l.flight
    then some (record l { receiver = Receiver.counting n; flight = l.flight - n })
    else none
receiver_step is_open recv_end waiting l =
    if not is_open && (l.flight == 0) then some (record l { receiver = Receiver.done }) else none
receiver_step is_open recv_error waiting l = some (record l { receiver = Receiver.done })
receiver_step is_open recv_count (counting n) l =
    some (record l { receiver = Receiver.checking; recv = l.recv + n })
receiver_step _ _ _ l = none

unfoldable pub is_sending : Act → Bool
is_sending (send_check stop) = true
is_sending (push n) = true
is_sending send_error = true
is_sending send_count = true
is_sending _ = false

unfoldable pub link_step : Bool → Act → Link → Option Link
unfolding sender_step receiver_step is_sending
link_step is_open a l =
    if is_sending a then sender_step a l.sender l else receiver_step is_open a l.receiver l

pub record Connection : Type 0 where
  pub up : Link
  pub down : Link
  pub client_open : Bool
  pub server_open : Bool

-- `t.join()` of both threads of an end, then `sock.close()`.
pub data Event : Type 0 where
  on_up on_down : Act → Event
  close_client close_server : Event

unfoldable pub sender_over : Sender → Bool
sender_over no_sender = true
sender_over done = true
sender_over _ = false

unfoldable pub receiver_over : Receiver → Bool
receiver_over no_receiver = true
receiver_over done = true
receiver_over _ = false

unfoldable pub with_up : Connection → Option Link → Option Connection
with_up c none = none
with_up c (some l) = some (record c { up = l })

unfoldable pub with_down : Connection → Option Link → Option Connection
with_down c none = none
with_down c (some l) = some (record c { down = l })

unfoldable pub step : Event → Connection → Option Connection
unfolding with_up with_down link_step sender_over receiver_over
step (on_up a) c = with_up c (link_step c.client_open a c.up)
step (on_down a) c = with_down c (link_step c.server_open a c.down)
step close_client c =
    if c.client_open && sender_over c.up.sender && receiver_over c.down.receiver
    then some (record c { client_open = false })
    else none
step close_server c =
    if c.server_open && sender_over c.down.sender && receiver_over c.up.receiver
    then some (record c { server_open = false })
    else none

unfoldable pub run : List Event → Connection → Option Connection
unfolding step
run [] c = some c
run (e ∷ rest) c = elim (step e c) [ none ↦ none | some c' ↦ run rest c' ]

-- The link between an end that runs in direction `from` and one that runs in direction `to`.
unfoldable pub new_link : Direction → Direction → Link
new_link from to = record {
  sender = if runs_sender from then Sender.checking else no_sender;
  receiver = if runs_receiver to then Receiver.checking else no_receiver;
  flight = 0;
  sent = 0;
  recv = 0;
  lost = 0;
}

-- The client announces its direction, and the server runs in the one that it reads from the byte.
unfoldable pub establish : Direction → Option Connection
unfolding new_link
establish dir = elim (opposite (announce dir)) [
  | none ↦ none
  | some other ↦ some (record {
    up = new_link dir other;
    down = new_link other dir;
    client_open = true;
    server_open = true;
  })
]
