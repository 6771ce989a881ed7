-- ===== src/NetLoad/Lan/Duplex/Stopping.antt =====
-- What is left to do after the stop.
use mathlib.Core.Option.{some-injective, none-ne-some}
use til.Prelude.{
  ℕ, ◌+◌, ◌*◌, ◌≤◌, ◌≡◌, refl, subst, Bool, true, false, some, List, [], ◌∷◌, length, All, arith,
  Option-cases, inl, inr,
}
use til.NetLoad.Internet.{chunk}
use til.NetLoad.Lan.{Direction}
use til.NetLoad.Lan.Duplex.{
  Sender, Receiver, Link, Act, send_check, push, send_error, send_count, recv_check, take, recv_end,
  recv_error, recv_count, after_push, sender_step, receiver_step, link_step, Connection, Event,
  on_up, on_down, close_client, close_server, with_up, with_down, step, run, establish,
}
use til.NetLoad.Lan.Duplex.Moves.{link_step-cases}
use til.NetLoad.Lan.Duplex.Counted.{IsFitting, Balanced, run-Balanced}

-- How many events a thread can still see once `stop` is set. A receiver may block in `recv`.
abbrev sender_left : Sender → ℕ
sender_left Sender.no_sender = 0
sender_left Sender.checking = 1
sender_left (Sender.pushing left) = left + 2
sender_left Sender.counting = 2
sender_left Sender.done = 0

abbrev receiver_left : Receiver → ℕ
receiver_left Receiver.no_receiver = 0
receiver_left Receiver.checking = 1
receiver_left Receiver.waiting = 3
receiver_left (Receiver.counting n) = 2
receiver_left Receiver.done = 0

abbrev link_left : Link → ℕ
link_left l = sender_left l.sender + receiver_left l.receiver

abbrev one_if : Bool → ℕ
one_if true = 1
one_if false = 0

abbrev left_of : Connection → ℕ
left_of c = link_left c.up + link_left c.down + one_if c.client_open + one_if c.server_open

abbrev IsStop : Act → Type 0
IsStop (send_check stop) = stop ≡ true
IsStop (recv_check stop) = stop ≡ true
IsStop _ = Unit

-- Whoever checks the stop event finds it set.
abbrev pub IsStopping : Event → Type 0
IsStopping (on_up a) = IsStop a
IsStopping (on_down a) = IsStop a
IsStopping _ = Unit

sender_left-falls :
    (a : Act) (s : Sender) (l : Link) {l' : Link}
    → l.sender ≡ s
    → IsStop a
    → sender_step a s l ≡ some l'
    → link_left l' + 1 ≤ link_left l
unfolding sender_step after_push
sender_left-falls (send_check stop) Sender.checking l q h e = ground arith
sender_left-falls (push n) (Sender.pushing left) l q h e = ground arith
sender_left-falls send_error (Sender.pushing left) l q h e = ground arith
sender_left-falls send_count Sender.counting l q h e = ground arith
sender_left-falls _ _ l q h e = cc

receiver_left-falls :
    (o : Bool) (a : Act) (r : Receiver) (l : Link) {l' : Link}
    → l.receiver ≡ r
    → IsStop a
    → receiver_step o a r l ≡ some l'
    → link_left l' + 1 ≤ link_left l
unfolding receiver_step
receiver_left-falls o (recv_check stop) Receiver.checking l q h e = ground arith
receiver_left-falls o (take n) Receiver.waiting l q h e = ground arith
receiver_left-falls o recv_end Receiver.waiting l q h e = ground arith
receiver_left-falls o recv_error Receiver.waiting l q h e = ground arith
receiver_left-falls o recv_count (Receiver.counting n) l q h e = ground arith
receiver_left-falls o _ _ l q h e = cc

link_left-falls :
    (o : Bool) (a : Act) (l : Link) {l' : Link}
    → IsStop a
    → link_step o a l ≡ some l'
    → link_left l' + 1 ≤ link_left l
link_left-falls o a l h e = elim (link_step-cases o a l e) [
  | inl s ↦ sender_left-falls a l.sender l refl h s
  | inr r ↦ receiver_left-falls o a l.receiver l refl h r
]

left_of-falls :
    (e : Event) (c : Connection) {c' : Connection}
    → IsStopping e
    → step e c ≡ some c'
    → left_of c' + 1 ≤ left_of c
unfolding step with_up with_down
left_of-falls (on_up a) c h e = elim (Option-cases (link_step c.client_open a c.up)) [
  | inl stuck ↦ absurd (none-ne-some _ (rw (stuck, with_up) at e))
  | inr (l, moved) ↦
      subst (λ x. left_of x + 1 ≤ left_of c) (some-injective _ _ (rw (moved, with_up) at e))
        (omega (arith, link_left-falls c.client_open a c.up h moved))
]
left_of-falls (on_down a) c h e = elim (Option-cases (link_step c.server_open a c.down)) [
  | inl stuck ↦ absurd (none-ne-some _ (rw (stuck, with_down) at e))
  | inr (l, moved) ↦
      subst (λ x. left_of x + 1 ≤ left_of c) (some-injective _ _ (rw (moved, with_down) at e))
        (omega (arith, link_left-falls c.server_open a c.down h moved))
]
left_of-falls close_client c h e = ground arith
left_of-falls close_server c h e = ground arith

run-left_of :
    (schedule : List Event) (c : Connection) {c' : Connection}
    → All IsStopping schedule
    → run schedule c ≡ some c'
    → length schedule + left_of c' ≤ left_of c
unfolding run
run-left_of [] c h e = rw (some-injective _ _ e) (omega arith)
run-left_of (x ∷ rest) c h e = elim (Option-cases (step x c)) [
  | inl stuck ↦ absurd (none-ne-some _ (rw (stuck, run) at e))
  | inr (next, moved) ↦
      omega (arith, left_of-falls x c h.0 moved, run-left_of rest next h.1 (rw (moved, run) at e))
]

sender_left-le : (s : Sender) → IsFitting s → sender_left s ≤ chunk + 2
sender_left-le Sender.no_sender f = omega arith
sender_left-le Sender.checking f = omega arith
sender_left-le (Sender.pushing left) f = omega arith
sender_left-le Sender.counting f = omega arith
sender_left-le Sender.done f = omega arith

receiver_left-le : (r : Receiver) → receiver_left r ≤ 3
receiver_left-le Receiver.no_receiver = omega arith
receiver_left-le Receiver.checking = omega arith
receiver_left-le Receiver.waiting = omega arith
receiver_left-le (Receiver.counting n) = omega arith
receiver_left-le Receiver.done = omega arith

one_if-le : (b : Bool) → one_if b ≤ 1
one_if-le true = omega arith
one_if-le false = omega arith

link_left-le : (l : Link) → Balanced l → link_left l ≤ chunk + 5
link_left-le l b = omega (arith, sender_left-le l.sender b.within, receiver_left-le l.receiver)

-- Once both programs are told to stop, their threads do at most `2 * chunk + 12` things more,
-- whatever the order and however much was done before.
pub run-stopping :
    (dir : Direction) (before after : List Event) {c₀ c c' : Connection}
    → establish dir ≡ some c₀
    → run before c₀ ≡ some c
    → All IsStopping after
    → run after c ≡ some c'
    → length after ≤ 2 * chunk + 12
run-stopping dir before after {c₀} {c} q r h r' =
    let (u, d, _, _) = run-Balanced dir before q r in
    omega (
      arith,
      run-left_of after c h r',
      link_left-le c.up u,
      link_left-le c.down d,
      one_if-le c.client_open,
      one_if-le c.server_open,
    )
