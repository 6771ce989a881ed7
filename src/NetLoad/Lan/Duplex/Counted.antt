-- ===== src/NetLoad/Lan/Duplex/Counted.antt =====
-- The bytes that the two ends of a connection count.
use mathlib.Core.Option.{some-injective}
use til.Prelude.{
  ℕ, ◌+◌, ◌-◌, ◌≤◌, ◌<◌, ◌≡◌, refl, subst, Bool, true, false, some, List, arith, inl, inr,
}
use til.NetLoad.Internet.{chunk}
use til.NetLoad.Lan.{
  Direction, send, recv, both, runs_sender, runs_receiver, announce, opposite, opposite_byte,
}
use til.NetLoad.Lan.Duplex.Moves.{
  link_step-cases, Moved, up_moved, down_moved, client_closed, server_closed, run_ind,
}
use til.NetLoad.Lan.Duplex.{
  Sender, Receiver, Link, Act, send_check, push, send_error, send_count, recv_check, take, recv_end,
  recv_error, recv_count, after_push, sender_step, receiver_step, link_step, Connection, Event, run,
  new_link, establish,
}

-- Bytes that went out and are not counted yet, and bytes that came in and are not.
abbrev pub outgoing : Sender → ℕ
outgoing Sender.no_sender = 0
outgoing Sender.checking = 0
outgoing (Sender.pushing left) = chunk - left
outgoing Sender.counting = chunk
outgoing Sender.done = 0

abbrev pub incoming : Receiver → ℕ
incoming Receiver.no_receiver = 0
incoming Receiver.checking = 0
incoming Receiver.waiting = 0
incoming (Receiver.counting n) = n
incoming Receiver.done = 0

-- What may have failed to be counted: nothing while the sender is at work.
abbrev pub may_lose : Sender → ℕ
may_lose Sender.done = chunk
may_lose _ = 0

abbrev pub IsFitting : Sender → Type 0
IsFitting (Sender.pushing left) = (0 < left) × (left ≤ chunk)
IsFitting _ = Unit

-- A sender that was not started has counted nothing.
abbrev pub IsCounting : Sender → ℕ → Type 0
IsCounting Sender.no_sender sent = sent ≡ 0
IsCounting _ sent = Unit

pub record Balanced (l : Link) : Type 0 where
  pub total : l.sent + outgoing l.sender + l.lost ≡ l.recv + incoming l.receiver + l.flight
  pub small : l.lost ≤ may_lose l.sender
  pub within : IsFitting l.sender
  pub absent : IsCounting l.sender l.sent

sender-Balanced :
    (a : Act) (s : Sender) (l : Link) {l' : Link}
    → l.sender ≡ s
    → Balanced l
    → sender_step a s l ≡ some l'
    → Balanced l'
unfolding sender_step after_push
sender-Balanced (send_check true) Sender.checking l q b e = ground arith
sender-Balanced (send_check false) Sender.checking l q b e = ground arith
sender-Balanced (push n) (Sender.pushing left) l q b e = ground arith
sender-Balanced send_error (Sender.pushing left) l q b e = ground arith
sender-Balanced send_count Sender.counting l q b e = ground arith
sender-Balanced _ _ l q b e = cc

receiver-Balanced :
    (o : Bool) (a : Act) (s : Receiver) (l : Link) {l' : Link}
    → l.receiver ≡ s
    → Balanced l
    → receiver_step o a s l ≡ some l'
    → Balanced l'
unfolding receiver_step
receiver-Balanced o (recv_check true) Receiver.checking l q b e = ground arith
receiver-Balanced o (recv_check false) Receiver.checking l q b e = ground arith
receiver-Balanced o (take n) Receiver.waiting l q b e = ground arith
receiver-Balanced o recv_end Receiver.waiting l q b e = ground arith
receiver-Balanced o recv_error Receiver.waiting l q b e = ground arith
receiver-Balanced o recv_count (Receiver.counting n) l q b e = ground arith
receiver-Balanced o _ _ l q b e = cc

link-Balanced :
    (o : Bool) (a : Act) (l : Link) {l' : Link}
    → link_step o a l ≡ some l'
    → Balanced l
    → Balanced l'
link-Balanced o a l e b = elim (link_step-cases o a l e) [
  | inl s ↦ sender-Balanced a l.sender l refl b s
  | inr r ↦ receiver-Balanced o a l.receiver l refl b r
]

abbrev BothBalanced : Connection → Type 0
BothBalanced c = Balanced c.up × Balanced c.down

Moved-Balanced : (c c' : Connection) → Moved c c' → BothBalanced c → BothBalanced c'
Moved-Balanced c c' (up_moved a l e q) b = rw q (link-Balanced c.client_open a c.up e b.0, b.1)
Moved-Balanced c c' (down_moved a l e q) b = rw q (b.0, link-Balanced c.server_open a c.down e b.1)
Moved-Balanced c c' (client_closed p r q) b = rw q b
Moved-Balanced c c' (server_closed p r q) b = rw q b

new_link-Balanced : (from to : Direction) → Balanced (new_link from to)
unfolding new_link runs_sender runs_receiver
new_link-Balanced send send = omega arith
new_link-Balanced send recv = omega arith
new_link-Balanced send both = omega arith
new_link-Balanced recv send = omega arith
new_link-Balanced recv recv = omega arith
new_link-Balanced recv both = omega arith
new_link-Balanced both send = omega arith
new_link-Balanced both recv = omega arith
new_link-Balanced both both = omega arith

establish-Balanced : (dir : Direction) {c : Connection} → establish dir ≡ some c → BothBalanced c
unfolding establish opposite announce opposite_byte
establish-Balanced send e =
    subst BothBalanced (some-injective _ _ e)
      (new_link-Balanced send recv, new_link-Balanced recv send)
establish-Balanced recv e =
    subst BothBalanced (some-injective _ _ e)
      (new_link-Balanced recv send, new_link-Balanced send recv)
establish-Balanced both e =
    subst BothBalanced (some-injective _ _ e)
      (new_link-Balanced both both, new_link-Balanced both both)

uncounted_lem :
    (s : Sender) (lost : ℕ) → lost ≤ may_lose s → IsFitting s → outgoing s + lost ≤ chunk
uncounted_lem Sender.no_sender lost h f = omega arith
uncounted_lem Sender.checking lost h f = omega arith
uncounted_lem (Sender.pushing left) lost h f = omega arith
uncounted_lem Sender.counting lost h f = omega arith
uncounted_lem Sender.done lost h f = omega arith

link-within : (l : Link) → Balanced l → l.recv ≤ l.sent + chunk
link-within l b = omega (arith, uncounted_lem l.sender l.lost b.small b.within, b.total)

-- However the threads of both ends interleave, and whatever fails: in each direction the bytes that
-- were counted as sent or are about to be, and those of a failed `sendall`, are the bytes counted as
-- received or about to be and those on the way. So what is counted as received exceeds what is
-- counted as sent by one payload at most.
pub run-Balanced :
    (dir : Direction) (schedule : List Event) {c₀ c : Connection}
    → establish dir ≡ some c₀
    → run schedule c₀ ≡ some c
    → Balanced c.up
      × Balanced c.down
      × (c.up.recv ≤ c.up.sent + chunk)
      × (c.down.recv ≤ c.down.sent + chunk)
run-Balanced dir schedule {c₀} {c} e r =
    let (u, d) = run_ind BothBalanced Moved-Balanced schedule c₀ r (establish-Balanced dir e) in
    (u, d, link-within c.up u, link-within c.down d)
