-- ===== src/NetLoad/Lan.antt =====
-- The LAN mode of linux/nethogs/main.py: `sock_sender`, `sock_receiver`, `run_duplex`,
-- `server_main` and `client_worker`. Sockets and the stop event are a script of answers.
use til.Prelude.{ℕ, Bool, true, false, Option, none, some, List, [], ◌∷◌, ◌++◌, ◌==◌, if◌then◌else◌}
use til.NetLoad.Internet.{
  Io, returned, os_error, other_error, Round, Ended, stopped, finished, failed, crashed, running,
  Worker, chunk, received, sent_piece,
}
pub mod Agreement
pub mod Accepting
pub mod Duplex

-- The values of `--dir`, and of `direction` in `run_duplex`.
pub data Direction : Type 0 where
  send recv both : Direction

-- `sock.sendall(PAYLOAD)`; an `OSError` ends the thread with no word.
unfoldable pub sender_turn : Bool → Io → ℕ → Worker → (Worker → Ended × Worker) → Ended × Worker
unfolding sent_piece
sender_turn true io now w next = (stopped, w)
sender_turn false (returned n) now w next = next (sent_piece w chunk now)
sender_turn false os_error now w next = (failed, w)
sender_turn false other_error now w next = (crashed, w)

unfoldable pub sock_sender : List Round → Worker → Ended × Worker
unfolding sender_turn
sock_sender [] w = (running, w)
sock_sender (r ∷ rest) w = sender_turn r.stop r.io r.now w (sock_sender rest)

unfoldable pub receiver_turn : Bool → Io → ℕ → Worker → (Worker → Ended × Worker) → Ended × Worker
unfolding received
receiver_turn true io now w next = (stopped, w)
receiver_turn false (returned n) now w next =
    if n == 0 then (finished, w) else next (received w n now)
receiver_turn false os_error now w next = (failed, w)
receiver_turn false other_error now w next = (crashed, w)

unfoldable pub sock_receiver : List Round → Worker → Ended × Worker
unfolding receiver_turn
sock_receiver [] w = (running, w)
sock_receiver (r ∷ rest) w = receiver_turn r.stop r.io r.now w (sock_receiver rest)

pub data Role : Type 0 where
  sends receives : Role

-- `direction in ("send", "both")` and `direction in ("recv", "both")`.
unfoldable pub runs_sender : Direction → Bool
runs_sender send = true
runs_sender recv = false
runs_sender both = true

unfoldable pub runs_receiver : Direction → Bool
runs_receiver send = false
runs_receiver recv = true
runs_receiver both = true

-- The threads that `run_duplex` starts and joins, in order. It closes the socket when all of them
-- have ended.
unfoldable pub run_duplex : Direction → List Role
unfolding runs_sender runs_receiver
run_duplex direction =
    (if runs_sender direction then sends ∷ [] else [])
    ++ (if runs_receiver direction then receives ∷ [] else [])

-- The byte that `client_worker` sends first.
unfoldable pub announce : Direction → List ℕ
announce send = b'S' ∷ []
announce recv = b'R' ∷ []
announce both = b'B' ∷ []

-- `opposite.get(mode)`: the dictionary of `server_main`.
unfoldable pub opposite_byte : ℕ → Option Direction
opposite_byte m =
    if m == b'S'
    then some recv
    else if m == b'R'
    then some send
    else if m == b'B'
    then some both
    else none

unfoldable pub opposite : List ℕ → Option Direction
unfolding opposite_byte
opposite [] = none
opposite (m ∷ []) = opposite_byte m
opposite (m ∷ n ∷ rest) = none

-- `client_worker` after the connection: the byte, then `run_duplex` in the client's direction.
unfoldable pub client_worker : Direction → List ℕ × List Role
unfolding announce run_duplex
client_worker dir = (announce dir, run_duplex dir)

-- What `srv.accept()` answers: nothing for a second, or a connection with what `conn.recv(1)`
-- returns (no byte if the client closed). `reset` is an `OSError` of that `recv`.
pub data Accepted : Type 0 where
  timeout : Accepted
  connection : ℕ → List ℕ → Accepted
  reset : ℕ → Accepted

pub record Turn : Type 0 where
  pub stop : Bool
  pub accepted : Accepted

pub record Server : Type 0 where
  pub listening : Bool
  pub serving : List (ℕ × Direction)
  pub refused : List ℕ

-- A connection is given to a thread of `run_duplex`, or closed.
unfoldable pub greet : ℕ → Option Direction → Server → Server
greet conn none srv = record srv { refused = conn ∷ srv.refused }
greet conn (some direction) srv = record srv { serving = (conn, direction) ∷ srv.serving }

-- `reset` is not caught: the thread ends and leaves the socket listening.
unfoldable pub server_turn : Bool → Accepted → Server → (Server → Ended × Server) → Ended × Server
unfolding greet opposite
server_turn true accepted srv next = (stopped, record srv { listening = false })
server_turn false timeout srv next = next srv
server_turn false (connection conn mode) srv next = next (greet conn (opposite mode) srv)
server_turn false (reset conn) srv next = (crashed, srv)

unfoldable pub server_main : List Turn → Server → Ended × Server
unfolding server_turn
server_main [] srv = (running, srv)
server_main (t ∷ rest) srv = server_turn t.stop t.accepted srv (server_main rest)
