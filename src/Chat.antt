-- ===== src/Chat.antt =====
-- linux/socket/client.py. The socket, the keyboard and the peer are scripts of what the calls meet.
-- `gethostbyname`, `connect` and the lines that only announce a thread are left out.
use til.Prelude.{
  ℕ, Bool, true, false, ◌&&◌, Option, none, some, List, [], ◌∷◌, ◌++◌, ◌==◌, take, drop,
  if◌then◌else◌,
}
use til.Chat.Utf8.{Text, Bytes, encode, decode}
pub mod Utf8
pub mod Pieces
pub mod Spoken
pub mod Misread
pub mod Cut

abbrev pub recv_size : ℕ
recv_size = 30

-- What happens before a `recv` of the thread returns: data arrives, the peer has closed, or the
-- connection breaks. After `arrives []` the `recv` finds what the one before it left.
pub data Arrival : Type 0 where
  arrives : Bytes → Arrival
  peer_closed : Arrival
  reset : Arrival

-- Where the thread stands: inside `recv`, at the end of its loop, or ended by an exception.
pub data Thread : Type 0 where
  receiving returned failed : Thread

pub record Received : Type 0 where
  pub printed : List Text
  pub thread : Thread

-- `….split('\x00')[0]`
unfoldable pub first_part : Text → Text
first_part [] = []
first_part (c ∷ rest) = if c == 0 then [] else c ∷ first_part rest

unfoldable pub show : Option Text → Received → Received
unfolding first_part
show none later = record { printed = []; thread = failed }
show (some text) later = record { printed = first_part text ∷ later.printed; thread = later.thread }

-- `recv` goes on waiting while there is nothing.
unfoldable pub on_data : Bytes → Received → Received
unfolding show decode
on_data [] later = later
on_data (b ∷ rest) later = show (decode (b ∷ rest)) later

unfoldable pub on_closed : Bytes → Received → Received
unfolding on_data
on_closed [] later = record { printed = []; thread = returned }
on_closed (b ∷ rest) later = on_data (b ∷ rest) later

-- The first argument is what has arrived and was not read.
unfoldable pub recv_data : Bytes → List Arrival → Received
unfolding on_data on_closed
recv_data buffer [] = record { printed = []; thread = receiving }
recv_data buffer (arrives bytes ∷ rest) =
    on_data (take recv_size (buffer ++ bytes)) (recv_data (drop recv_size (buffer ++ bytes)) rest)
recv_data buffer (peer_closed ∷ rest) =
    on_closed (take recv_size buffer) (recv_data (drop recv_size buffer) rest)
recv_data buffer (reset ∷ rest) = record { printed = []; thread = failed }

-- What a `send` does: it takes so many bytes, or raises.
pub data Send : Type 0 where
  takes : ℕ → Send
  breaks : Send

-- What an `input()` returns, with what the `send` after it does. At the end of the input it raises.
pub data Input : Type 0 where
  typed : Text → Send → Input
  end_of_input : Input

-- Where the loop stands: inside `input()`, left by `break`, or ended by an exception.
pub data Loop : Type 0 where
  reading left raised : Loop

pub record Sent : Type 0 where
  pub pieces : List Bytes
  pub loop : Loop

-- `input() + '\0'`
abbrev pub message_of : Text → Text
message_of line = line ++ 0 ∷ []

unfoldable pub same_text : Text → Text → Bool
same_text [] [] = true
same_text (a ∷ s) (b ∷ t) = (a == b) && same_text s t
same_text _ _ = false

abbrev pub exit_line : Text
exit_line = b'e' ∷ b'x' ∷ b'i' ∷ b't' ∷ []

-- `send` does not tell the code that it took less.
unfoldable pub after_send : Text → Send → Bytes → Sent → Sent
unfolding same_text
after_send message breaks bytes later = record { pieces = []; loop = raised }
after_send message (takes n) bytes later =
    if same_text message (message_of exit_line)
    then record { pieces = take n bytes ∷ []; loop = left }
    else record { pieces = take n bytes ∷ later.pieces; loop = later.loop }

unfoldable pub send_message : Text → Send → Option Bytes → Sent → Sent
unfolding after_send
send_message message s none later = record { pieces = []; loop = raised }
send_message message s (some bytes) later = after_send message s bytes later

unfoldable pub message_loop : List Input → Sent
unfolding send_message encode
message_loop [] = record { pieces = []; loop = reading }
message_loop (end_of_input ∷ rest) = record { pieces = []; loop = raised }
message_loop (typed line s ∷ rest) =
    send_message (message_of line) s (encode (message_of line)) (message_loop rest)

-- `thread.join()` waits for the thread, whichever way it ends.
unfoldable pub is_closed : Loop → Thread → Bool
is_closed left returned = true
is_closed left failed = true
is_closed _ _ = false

-- What the socket was given, what was printed, and whether the socket was closed.
pub record Outcome : Type 0 where
  pub pieces : List Bytes
  pub printed : List Text
  pub closed : Bool

unfoldable pub client : List Input → List Arrival → Outcome
unfolding message_loop recv_data is_closed
client inputs arrivals =
    let sent = message_loop inputs in
    let received = recv_data [] arrivals in
    record {
      pieces = sent.pieces;
      printed = received.printed;
      closed = is_closed sent.loop received.thread;
    }
