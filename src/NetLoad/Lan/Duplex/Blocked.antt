-- ===== src/NetLoad/Lan/Duplex/Blocked.antt =====
-- Which connections can block.
use til.Prelude.{◌≡◌, ◌⊎◌, refl, ◌∙◌, true, ◌||◌, some, List, arith, inl, inr}
use til.NetLoad.Lan.{
  Direction, send, recv, both, runs_sender, runs_receiver, announce, opposite, opposite_byte,
}
use til.NetLoad.Lan.Duplex.{no_receiver, Connection, Event, receiver_over, run, establish, new_link}
use til.NetLoad.Lan.Duplex.Moves.{
  Moved, up_moved, down_moved, client_closed, server_closed, run_ind,
}
use til.NetLoad.Lan.Duplex.Threads.{receiver-stays, End, client, server, link_to}
use til.NetLoad.Lan.Duplex.Progress.{CanMove, IsBlocked, run-moves}

abbrev IsDeaf : End → Connection → Type 0
IsDeaf e c = (link_to e c).receiver ≡ no_receiver

Moved-IsDeaf : (e : End) (c c' : Connection) → Moved c c' → IsDeaf e c → IsDeaf e c'
unfolding receiver_over
Moved-IsDeaf server c c' (up_moved a l s q) h =
    rw q (receiver-stays c.client_open a c.up s (rw (h, receiver_over)) ∙ h)
Moved-IsDeaf client c c' (up_moved a l s q) h = rw q h
Moved-IsDeaf server c c' (down_moved a l s q) h = rw q h
Moved-IsDeaf client c c' (down_moved a l s q) h =
    rw q (receiver-stays c.server_open a c.down s (rw (h, receiver_over)) ∙ h)
Moved-IsDeaf client c c' (client_closed x y q) h = rw q h
Moved-IsDeaf server c c' (client_closed x y q) h = rw q h
Moved-IsDeaf client c c' (server_closed x y q) h = rw q h
Moved-IsDeaf server c c' (server_closed x y q) h = rw q h

establish-send : {c : Connection} → establish send ≡ some c → IsDeaf client c
unfolding establish opposite announce opposite_byte new_link runs_sender runs_receiver
establish-send q = ground arith

establish-recv : {c : Connection} → establish recv ≡ some c → IsDeaf server c
unfolding establish opposite announce opposite_byte new_link runs_sender runs_receiver
establish-recv q = ground arith

blocked-both :
    (dir : Direction) (schedule : List Event) {c₀ c : Connection}
    → establish dir ≡ some c₀
    → run schedule c₀ ≡ some c
    → IsBlocked c
    → dir ≡ both
blocked-both send schedule {c₀} {c} q r b =
    let deaf = run_ind (IsDeaf client) (Moved-IsDeaf client) schedule c₀ r (establish-send q) in
    ground (arith, deaf, b.receivers)
blocked-both recv schedule {c₀} {c} q r b =
    let deaf = run_ind (IsDeaf server) (Moved-IsDeaf server) schedule c₀ r (establish-recv q) in
    ground (arith, deaf, b.receivers)
blocked-both both schedule q r b = refl

-- At any time after the start, if the stop event is set and no call fails: as long as an end is open,
-- something can happen, unless both ends send and receive, both have sent their last payload, and
-- both wait inside `recv` for more.
pub run-CanMove :
    (dir : Direction) (schedule : List Event) {c₀ c : Connection}
    → establish dir ≡ some c₀
    → run schedule c₀ ≡ some c
    → c.client_open || c.server_open ≡ true
    → CanMove c ⊎ ((dir ≡ both) × IsBlocked c)
run-CanMove dir schedule q r o = elim (run-moves dir schedule q r o) [
  | inl moves ↦ inl moves
  | inr b ↦ inr (blocked-both dir schedule q r b, b)
]
