-- ===== src/NetLoad/Lan/Duplex/Progress.antt =====
-- What can still happen on a connection.
use til.Prelude.{
  ◌+◌, ◌-◌, ◌≡◌, ◌⊎◌, refl, Bool, true, false, ◌&&◌, ◌||◌, some, List, ◌==◌, leb, min, arith, inl,
  inr, Bool-cases,
}
use til.NetLoad.Internet.{chunk}
use til.NetLoad.Lan.{Direction}
use til.NetLoad.Lan.Duplex.{
  Sender, Receiver, Link, Act, send_check, push, send_error, send_count, recv_check, take, recv_end,
  recv_error, recv_count, after_push, sender_step, receiver_step, is_sending, link_step, Connection,
  Event, on_up, on_down, close_client, close_server, sender_over, receiver_over, with_up, with_down,
  step, run, establish,
}
use til.NetLoad.Lan.Duplex.Counted.{IsFitting, run-Balanced}

-- The stop event is set, and no call fails.
abbrev IsSmooth : Act → Type 0
IsSmooth (send_check stop) = stop ≡ true
IsSmooth (recv_check stop) = stop ≡ true
IsSmooth send_error = ⊥
IsSmooth recv_error = ⊥
IsSmooth _ = Unit

abbrev pub IsSmoothEvent : Event → Type 0
IsSmoothEvent (on_up a) = IsSmooth a
IsSmoothEvent (on_down a) = IsSmooth a
IsSmoothEvent _ = Unit

-- Something can happen.
abbrev pub CanMove : Connection → Type 0
CanMove c = (e : Event) × IsSmoothEvent e × (c' : Connection) × (step e c ≡ some c')

-- Both receivers are inside `recv`, nothing is on the way, and both senders are over.
pub record IsBlocked (c : Connection) : Type 0 where
  pub open_both : (c.client_open ≡ true) × (c.server_open ≡ true)
  pub senders : (sender_over c.up.sender ≡ true) × (sender_over c.down.sender ≡ true)
  pub receivers : (c.up.receiver ≡ Receiver.waiting) × (c.down.receiver ≡ Receiver.waiting)
  pub flights : (c.up.flight ≡ 0) × (c.down.flight ≡ 0)

abbrev LinkMoves : Bool → Link → Type 0
LinkMoves is_open l = (a : Act) × IsSmooth a × (l' : Link) × (link_step is_open a l ≡ some l')

sender-moves :
    (is_open : Bool) (s : Sender) (l : Link)
    → l.sender ≡ s
    → IsFitting s
    → LinkMoves is_open l ⊎ (sender_over s ≡ true)
unfolding link_step sender_step is_sending sender_over
sender-moves is_open Sender.no_sender l q f = inr refl
sender-moves is_open Sender.checking l q f =
    inl (send_check true, refl, record l { sender = Sender.done }, rw q refl)
sender-moves is_open (Sender.pushing left) l q f =
    let fine : leb 1 left && leb left left ≡ true = ground arith in
    inl (
      push left,
      tt,
      record l { sender = after_push (left - left); flight = l.flight + left },
      rw q (rw fine refl),
    )
sender-moves is_open Sender.counting l q f =
    inl (send_count, tt, record l { sender = Sender.checking; sent = l.sent + chunk }, rw q refl)
sender-moves is_open Sender.done l q f = inr refl

waiting-moves :
    (is_open : Bool) (l : Link)
    → l.receiver ≡ Receiver.waiting
    → LinkMoves is_open l ⊎ ((l.flight ≡ 0) × (is_open ≡ true))
unfolding link_step receiver_step is_sending
waiting-moves is_open l q = elim (Bool-cases (l.flight == 0)) [
  | inl empty ↦ elim (Bool-cases is_open) [
    | inl o ↦ inr (ground arith, o)
    | inr o ↦ inl (recv_end, tt, record l { receiver = Receiver.done }, rw (q, o, empty) refl)
  ]
  | inr some_there ↦
      let n = min l.flight chunk in
      let fine : leb 1 n && leb n chunk && leb n l.flight ≡ true = ground arith in
      inl (
        take n,
        tt,
        record l { receiver = Receiver.counting n; flight = l.flight - n },
        rw q (rw fine refl),
      )
]

receiver-moves :
    (is_open : Bool) (r : Receiver) (l : Link)
    → l.receiver ≡ r
    → LinkMoves is_open l
      ⊎ ((receiver_over r ≡ true) ⊎ ((r ≡ Receiver.waiting) × (l.flight ≡ 0) × (is_open ≡ true)))
unfolding link_step receiver_step is_sending receiver_over
receiver-moves is_open Receiver.no_receiver l q = inr (inl refl)
receiver-moves is_open Receiver.checking l q =
    inl (recv_check true, refl, record l { receiver = Receiver.done }, rw q refl)
receiver-moves is_open Receiver.waiting l q = elim (waiting-moves is_open l q) [
  | inl moves ↦ inl moves
  | inr (empty, o) ↦ inr (inr (refl, empty, o))
]
receiver-moves is_open (Receiver.counting n) l q =
    inl (recv_count, tt, record l { receiver = Receiver.checking; recv = l.recv + n }, rw q refl)
receiver-moves is_open Receiver.done l q = inr (inl refl)

up-moves : (c : Connection) → LinkMoves c.client_open c.up → CanMove c
unfolding step with_up
up-moves c (a, smooth, l, e) = (on_up a, smooth, record c { up = l }, rw (e, with_up) refl)

down-moves : (c : Connection) → LinkMoves c.server_open c.down → CanMove c
unfolding step with_down
down-moves c (a, smooth, l, e) = (on_down a, smooth, record c { down = l }, rw (e, with_down) refl)

client-closes :
    (c : Connection)
    → c.client_open ≡ true
    → sender_over c.up.sender ≡ true
    → receiver_over c.down.receiver ≡ true
    → CanMove c
unfolding step
client-closes c o s r = (close_client, tt, record c { client_open = false }, rw (o, s, r) refl)

server-closes :
    (c : Connection)
    → c.server_open ≡ true
    → sender_over c.down.sender ≡ true
    → receiver_over c.up.receiver ≡ true
    → CanMove c
unfolding step
server-closes c o s r = (close_server, tt, record c { server_open = false }, rw (o, s, r) refl)

-- Once the senders are over.
receivers-move :
    (c : Connection)
    → c.client_open || c.server_open ≡ true
    → sender_over c.up.sender ≡ true
    → sender_over c.down.sender ≡ true
    → CanMove c ⊎ IsBlocked c
receivers-move c o su sd = elim (receiver-moves c.client_open c.up.receiver c.up refl) [
  | inl moves ↦ inl (up-moves c moves)
  | inr up ↦ elim (receiver-moves c.server_open c.down.receiver c.down refl) [
    | inl moves ↦ inl (down-moves c moves)
    | inr down ↦ close up down
  ]
]
  where
    Still : Bool → Link → Type 0
    Still is_open l =
        (receiver_over l.receiver ≡ true)
        ⊎ ((l.receiver ≡ Receiver.waiting) × (l.flight ≡ 0) × (is_open ≡ true))

    close : Still c.client_open c.up → Still c.server_open c.down → CanMove c ⊎ IsBlocked c
    close (inl u) (inl d) = elim (Bool-cases c.client_open) [
      | inl there ↦ inl (client-closes c there su d)
      | inr gone ↦ inl (server-closes c (ground (arith, gone, o)) sd u)
    ]
    close (inl u) (inr (w, f, open_s)) = inl (server-closes c open_s sd u)
    close (inr (w, f, open_c)) (inl d) = inl (client-closes c open_c su d)
    close (inr (w, f, open_c)) (inr (w', f', open_s)) = inr (record {
      open_both = (open_c, open_s);
      senders = (su, sd);
      receivers = (w, w');
      flights = (f, f');
    })

-- The case in which nothing can happen, whatever the direction.
pub run-moves :
    (dir : Direction) (schedule : List Event) {c₀ c : Connection}
    → establish dir ≡ some c₀
    → run schedule c₀ ≡ some c
    → c.client_open || c.server_open ≡ true
    → CanMove c ⊎ IsBlocked c
run-moves dir schedule {c₀} {c} e r o =
    let (u, d, _, _) = run-Balanced dir schedule e r in
    elim (sender-moves c.client_open c.up.sender c.up refl u.within) [
      | inl moves ↦ inl (up-moves c moves)
      | inr su ↦ elim (sender-moves c.server_open c.down.sender c.down refl d.within) [
        | inl moves ↦ inl (down-moves c moves)
        | inr sd ↦ receivers-move c o su sd
      ]
    ]
