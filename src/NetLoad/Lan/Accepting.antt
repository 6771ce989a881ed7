-- ===== src/NetLoad/Lan/Accepting.antt =====
-- What the accept loop of `server_main` does with the connections.
use til.Prelude.{
  ℕ, ◌+◌, ◌≡◌, refl, Bool, true, false, Option, none, some, List, [], ◌∷◌, length, arith,
}
use til.NetLoad.Internet.{Ended, stopped}
use til.NetLoad.Lan.{
  Direction, opposite, Accepted, timeout, connection, reset, Turn, Server, greet, server_turn,
  server_main,
}

taken_turn : Bool → Accepted → ℕ → ℕ
taken_turn true a n = 0
taken_turn false timeout n = n
taken_turn false (connection c mode) n = n + 1
taken_turn false (reset c) n = 0

-- How many connections the loop takes before it is told to stop or a `recv` is reset.
pub taken : List Turn → ℕ
taken [] = 0
taken (t ∷ rest) = taken_turn t.stop t.accepted (taken rest)

greet-length :
    (conn : ℕ) (d : Option Direction) (srv : Server)
    → length (greet conn d srv).serving + length (greet conn d srv).refused
      ≡ length srv.serving + length srv.refused + 1
unfolding greet
greet-length conn none srv = omega arith
greet-length conn (some d) srv = omega arith

abbrev held : Server → ℕ
held srv = length srv.serving + length srv.refused

turn-taken :
    (s : Bool) (a : Accepted) (next : Server → Ended × Server) (n : ℕ)
    → ((srv : Server) → held (next srv).1 ≡ held srv + n)
    → (srv : Server) → held (server_turn s a srv next).1 ≡ held srv + taken_turn s a n
unfolding server_turn taken_turn
turn-taken true a next n k srv = omega arith
turn-taken false timeout next n k srv = k srv
turn-taken false (connection c mode) next n k srv =
    omega (arith, k (greet c (opposite mode) srv), greet-length c (opposite mode) srv)
turn-taken false (reset c) next n k srv = omega arith

-- Each connection that the loop takes is either given to a thread or closed, and never both.
server_main-taken :
    (turns : List Turn) (srv : Server)
    → length (server_main turns srv).1.serving + length (server_main turns srv).1.refused
      ≡ length srv.serving + length srv.refused + taken turns
unfolding server_main taken
server_main-taken [] srv = omega arith
server_main-taken (t ∷ rest) srv =
    turn-taken t.stop t.accepted (server_main rest) (taken rest) (server_main-taken rest) srv

turn-stopped :
    (s : Bool) (a : Accepted) (next : Server → Ended × Server)
    → ((srv : Server) → (next srv).0 ≡ stopped → (next srv).1.listening ≡ false)
    → (srv : Server) → (server_turn s a srv next).0 ≡ stopped
    → (server_turn s a srv next).1.listening ≡ false
unfolding server_turn
turn-stopped true a next k srv e = refl
turn-stopped false timeout next k srv e = k srv e
turn-stopped false (connection c mode) next k srv e = k _ e
turn-stopped false (reset c) next k srv e = absurd (cc)

-- A server that was told to stop has closed its listening socket.
server_main-stopped :
    (turns : List Turn) (srv : Server)
    → (server_main turns srv).0 ≡ stopped
    → (server_main turns srv).1.listening ≡ false
unfolding server_main
server_main-stopped [] srv e = absurd (cc)
server_main-stopped (t ∷ rest) srv e =
    turn-stopped t.stop t.accepted (server_main rest) (server_main-stopped rest) srv e
