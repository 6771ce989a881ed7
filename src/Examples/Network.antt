-- ===== src/Examples/Network.antt =====
-- The LAN mode and the command line: linux/nethogs/main.py.
use til.Prelude.{◌≡◌, refl, true, false, none, some, List, [], ◌∷◌}
use til.Prelude.Int.{pos}
use til.NetLoad.Internet.{stopped}
use til.NetLoad.Lan.{
  send, opposite, opposite_byte, timeout, connection, Turn, Server, greet, server_turn, server_main,
}
use til.NetLoad.Report.{client, Args}

byte_known : opposite (b'R' ∷ []) ≡ some send
unfolding opposite opposite_byte
byte_known = refl

abbrev listening : Server
listening = record { listening = true; serving = []; refused = [] }

-- A client, nobody for a second, a stranger, and the stop.
abbrev turns : List Turn
turns =
    record { stop = false; accepted = connection 4 (b'S' ∷ []) }
    ∷ record { stop = false; accepted = timeout }
    ∷ record { stop = false; accepted = connection 5 (b'X' ∷ []) }
    ∷ record { stop = true; accepted = timeout }
    ∷ []

turns_stop : (server_main turns listening).0 ≡ stopped
unfolding server_main server_turn greet opposite opposite_byte
turns_stop = refl

abbrev no_host : Args
no_host = record {
  mode = client;
  host = none;
  rate = record { num = pos 5; den = 1 };
  threads = pos 4;
}
