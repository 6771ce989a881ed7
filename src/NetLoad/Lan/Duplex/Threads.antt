-- ===== src/NetLoad/Lan/Duplex/Threads.antt =====
-- A thread that is over, or was never started, stays as it is; a thread leaves the other alone.
use mathlib.Core.Option.{none-ne-some}
use til.Prelude.{◌≡◌, refl, sym, ◌∙◌, Bool, true, none, some, arith, inl, inr}
use til.NetLoad.Lan.Duplex.{
  Sender, Receiver, Link, Act, send_check, push, send_error, send_count, recv_check, take, recv_end,
  recv_error, recv_count, sender_step, receiver_step, link_step, Connection, sender_over,
  receiver_over,
}
use til.NetLoad.Lan.Duplex.Moves.{link_step-cases}

sender_step-receiver :
    (a : Act) (s : Sender) (l : Link) {l' : Link}
    → sender_step a s l ≡ some l'
    → l'.receiver ≡ l.receiver
unfolding sender_step
sender_step-receiver (send_check stop) Sender.checking l e = ground arith
sender_step-receiver (push n) (Sender.pushing left) l e = ground arith
sender_step-receiver send_error (Sender.pushing left) l e = ground arith
sender_step-receiver send_count Sender.counting l e = ground arith
sender_step-receiver _ _ l e = cc

receiver_step-sender :
    (o : Bool) (a : Act) (r : Receiver) (l : Link) {l' : Link}
    → receiver_step o a r l ≡ some l'
    → l'.sender ≡ l.sender
unfolding receiver_step
receiver_step-sender o (recv_check stop) Receiver.checking l e = ground arith
receiver_step-sender o (take n) Receiver.waiting l e = ground arith
receiver_step-sender o recv_end Receiver.waiting l e = ground arith
receiver_step-sender o recv_error Receiver.waiting l e = ground arith
receiver_step-sender o recv_count (Receiver.counting n) l e = ground arith
receiver_step-sender o _ _ l e = cc

sender_over-stuck :
    (a : Act) (s : Sender) (l : Link) → sender_over s ≡ true → sender_step a s l ≡ none
unfolding sender_over sender_step
sender_over-stuck (send_check stop) Sender.no_sender l e = refl
sender_over-stuck _ Sender.no_sender l e = refl
sender_over-stuck (send_check stop) Sender.done l e = refl
sender_over-stuck _ Sender.done l e = refl
sender_over-stuck _ _ l e = absurd (cc)

receiver_over-stuck :
    (o : Bool) (a : Act) (r : Receiver) (l : Link)
    → receiver_over r ≡ true
    → receiver_step o a r l ≡ none
unfolding receiver_over receiver_step
receiver_over-stuck o (recv_check stop) Receiver.no_receiver l e = refl
receiver_over-stuck o _ Receiver.no_receiver l e = refl
receiver_over-stuck o (recv_check stop) Receiver.done l e = refl
receiver_over-stuck o _ Receiver.done l e = refl
receiver_over-stuck o _ _ l e = absurd (cc)

-- A thread that is over, or was never started, stays as it is.
pub sender-stays :
    (o : Bool) (a : Act) (l : Link) {l' : Link}
    → link_step o a l ≡ some l'
    → sender_over l.sender ≡ true
    → l'.sender ≡ l.sender
sender-stays o a l e v = elim (link_step-cases o a l e) [
  | inl s ↦ absurd (none-ne-some _ (sym (sender_over-stuck a l.sender l v) ∙ s))
  | inr r ↦ receiver_step-sender o a l.receiver l r
]

pub receiver-stays :
    (o : Bool) (a : Act) (l : Link) {l' : Link}
    → link_step o a l ≡ some l'
    → receiver_over l.receiver ≡ true
    → l'.receiver ≡ l.receiver
receiver-stays o a l e v = elim (link_step-cases o a l e) [
  | inl s ↦ sender_step-receiver a l.sender l s
  | inr r ↦ absurd (none-ne-some _ (sym (receiver_over-stuck o a l.receiver l v) ∙ r))
]

pub data End : Type 0 where
  client server : End

abbrev pub is_open : End → Connection → Bool
is_open client c = c.client_open
is_open server c = c.server_open

abbrev pub link_from : End → Connection → Link
link_from client c = c.up
link_from server c = c.down

abbrev pub link_to : End → Connection → Link
link_to client c = c.down
link_to server c = c.up

-- Both threads of an end are over.
abbrev pub IsOver : End → Connection → Type 0
IsOver e c =
    (sender_over (link_from e c).sender ≡ true) × (receiver_over (link_to e c).receiver ≡ true)
