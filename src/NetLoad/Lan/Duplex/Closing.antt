-- ===== src/NetLoad/Lan/Duplex/Closing.antt =====
-- When the ends of a connection close, and what an end that does not send counts.
use mathlib.Core.Bool.{false≢true}
use til.Prelude.{◌+◌, ◌≤◌, ◌≡◌, ◌⊎◌, sym, ◌∙◌, Bool, true, false, some, List, arith, inl, inr}
use til.NetLoad.Lan.{
  Direction, send, recv, both, runs_sender, runs_receiver, announce, opposite, opposite_byte,
}
use til.NetLoad.Lan.Duplex.{
  no_sender, Link, Connection, Event, sender_over, receiver_over, run, new_link, establish,
}
use til.NetLoad.Lan.Duplex.Moves.{
  Moved, up_moved, down_moved, client_closed, server_closed, run_ind,
}
use til.NetLoad.Lan.Duplex.Threads.{
  sender-stays, receiver-stays, End, client, server, is_open, link_from, link_to, IsOver,
}
use til.NetLoad.Lan.Duplex.Counted.{incoming, Balanced, run-Balanced}

Moved-IsOver : (e : End) (c c' : Connection) → Moved c c' → IsOver e c → IsOver e c'
Moved-IsOver client c c' (up_moved a l s q) (v, w) =
    rw (q, sender-stays c.client_open a c.up s v) (v, w)
Moved-IsOver server c c' (up_moved a l s q) (v, w) =
    rw (q, receiver-stays c.client_open a c.up s w) (v, w)
Moved-IsOver client c c' (down_moved a l s q) (v, w) =
    rw (q, receiver-stays c.server_open a c.down s w) (v, w)
Moved-IsOver server c c' (down_moved a l s q) (v, w) =
    rw (q, sender-stays c.server_open a c.down s v) (v, w)
Moved-IsOver client c c' (client_closed x y q) v = rw q v
Moved-IsOver server c c' (client_closed x y q) v = rw q v
Moved-IsOver client c c' (server_closed x y q) v = rw q v
Moved-IsOver server c c' (server_closed x y q) v = rw q v

newly_closed :
    (e : End) (c c' : Connection)
    → Moved c c'
    → is_open e c' ≡ false
    → (is_open e c ≡ false) ⊎ IsOver e c
newly_closed client c c' (up_moved a l s q) o = inl (rw q at o)
newly_closed server c c' (up_moved a l s q) o = inl (rw q at o)
newly_closed client c c' (down_moved a l s q) o = inl (rw q at o)
newly_closed server c c' (down_moved a l s q) o = inl (rw q at o)
newly_closed client c c' (client_closed x y q) o = inr (x, y)
newly_closed server c c' (client_closed x y q) o = inl (rw q at o)
newly_closed client c c' (server_closed x y q) o = inl (rw q at o)
newly_closed server c c' (server_closed x y q) o = inr (x, y)

abbrev HasJoined : End → Connection → Type 0
HasJoined e c = is_open e c ≡ false → IsOver e c

Moved-HasJoined : (e : End) (c c' : Connection) → Moved c c' → HasJoined e c → HasJoined e c'
Moved-HasJoined e c c' m h o = elim (newly_closed e c c' m o) [
  | inl before ↦ Moved-IsOver e c c' m (h before)
  | inr over ↦ Moved-IsOver e c c' m over
]

establish-open :
    (dir : Direction) (e : End) {c : Connection} → establish dir ≡ some c → is_open e c ≡ true
unfolding establish opposite announce opposite_byte
establish-open send client q = ground arith
establish-open send server q = ground arith
establish-open recv client q = ground arith
establish-open recv server q = ground arith
establish-open both client q = ground arith
establish-open both server q = ground arith

-- An end closes its socket only when both of its threads are over, and none of them runs again.
pub run-IsOver :
    (dir : Direction) (e : End) (schedule : List Event) {c₀ c : Connection}
    → establish dir ≡ some c₀
    → run schedule c₀ ≡ some c
    → is_open e c ≡ false
    → (sender_over (link_from e c).sender ≡ true) × (receiver_over (link_to e c).receiver ≡ true)
run-IsOver dir e schedule {c₀} q r closed =
    run_ind (HasJoined e) (Moved-HasJoined e) schedule c₀ r
      (λ o. absurd (false≢true (sym o ∙ establish-open dir e q))) closed

abbrev IsSilent : End → Connection → Type 0
IsSilent e c = (link_from e c).sender ≡ no_sender

Moved-IsSilent : (e : End) (c c' : Connection) → Moved c c' → IsSilent e c → IsSilent e c'
unfolding sender_over
Moved-IsSilent client c c' (up_moved a l s q) h =
    rw q (sender-stays c.client_open a c.up s (rw (h, sender_over)) ∙ h)
Moved-IsSilent server c c' (up_moved a l s q) h = rw q h
Moved-IsSilent client c c' (down_moved a l s q) h = rw q h
Moved-IsSilent server c c' (down_moved a l s q) h =
    rw q (sender-stays c.server_open a c.down s (rw (h, sender_over)) ∙ h)
Moved-IsSilent client c c' (client_closed x y q) h = rw q h
Moved-IsSilent server c c' (client_closed x y q) h = rw q h
Moved-IsSilent client c c' (server_closed x y q) h = rw q h
Moved-IsSilent server c c' (server_closed x y q) h = rw q h

-- Whether an end is to send, by the direction that the client was given.
abbrev pub is_to_send : End → Direction → Bool
is_to_send client dir = runs_sender dir
is_to_send server dir = runs_receiver dir

establish-IsSilent :
    (dir : Direction) (e : End) {c : Connection}
    → establish dir ≡ some c
    → is_to_send e dir ≡ false
    → IsSilent e c
unfolding establish opposite announce opposite_byte new_link runs_sender runs_receiver
establish-IsSilent send client q s = absurd (cc)
establish-IsSilent send server q s = ground arith
establish-IsSilent recv client q s = ground arith
establish-IsSilent recv server q s = absurd (cc)
establish-IsSilent both client q s = absurd (cc)
establish-IsSilent both server q s = absurd (cc)

silent_lem : (l : Link) → l.sender ≡ no_sender → Balanced l → (l.sent ≡ 0) × (l.recv ≡ 0)
silent_lem l e b =
    let none_sent : l.sent ≡ 0 = rw e at b.absent in
    let none_lost : l.lost ≤ 0 = rw e at b.small in
    let none_out : l.sent + 0 + l.lost ≡ l.recv + incoming l.receiver + l.flight =
      rw e at b.total in
    (none_sent, omega arith)

-- An end that is not to send, by the direction that the client was given, counts nothing as sent,
-- and the other end counts nothing as received: the server reads the client's byte the right way.
pub run-silent :
    (dir : Direction) (e : End) (schedule : List Event) {c₀ c : Connection}
    → establish dir ≡ some c₀
    → run schedule c₀ ≡ some c
    → is_to_send e dir ≡ false
    → ((link_from e c).sent ≡ 0) × ((link_from e c).recv ≡ 0)
run-silent dir e schedule {c₀} {c} q r s =
    let quiet =
      run_ind (IsSilent e) (Moved-IsSilent e) schedule c₀ r (establish-IsSilent dir e q s) in
    let (u, d, _, _) = run-Balanced dir schedule q r in
    silent_lem (link_from e c) quiet (balanced e u d)
  where
    balanced : (x : End) → Balanced c.up → Balanced c.down → Balanced (link_from x c)
    balanced client u d = u
    balanced server u d = d
