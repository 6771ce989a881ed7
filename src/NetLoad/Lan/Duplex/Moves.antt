-- ===== src/NetLoad/Lan/Duplex/Moves.antt =====
-- What one event changes, and the induction over a run.
use mathlib.Core.Option.{some-injective, none-ne-some}
use til.Prelude.{
  ◌≡◌, sym, subst, ◌⊎◌, inl, inr, Bool, true, false, some, List, [], ◌∷◌, arith, Bool-cases,
  Option-cases,
}
use til.NetLoad.Lan.Duplex.{
  Link, Act, sender_step, receiver_step, is_sending, link_step, Connection, Event, on_up, on_down,
  close_client, close_server, sender_over, receiver_over, with_up, with_down, step, run,
}

-- A step of a link is a step of its sender or of its receiver.
pub link_step-cases :
    (o : Bool) (a : Act) (l : Link) {l' : Link}
    → link_step o a l ≡ some l'
    → (sender_step a l.sender l ≡ some l') ⊎ (receiver_step o a l.receiver l ≡ some l')
unfolding link_step
link_step-cases o a l e = elim (Bool-cases (is_sending a)) [
  | inl s ↦ inl (rw s at e)
  | inr r ↦ inr (rw r at e)
]

-- What an event does to a connection.
pub data Moved (c c' : Connection) : Type 0 where
  up_moved :
      (a : Act) (l : Link)
      → link_step c.client_open a c.up ≡ some l
      → c' ≡ record c { up = l }
      → Moved c c'
  down_moved :
      (a : Act) (l : Link)
      → link_step c.server_open a c.down ≡ some l
      → c' ≡ record c { down = l }
      → Moved c c'
  client_closed :
      sender_over c.up.sender ≡ true
      → receiver_over c.down.receiver ≡ true
      → c' ≡ record c { client_open = false }
      → Moved c c'
  server_closed :
      sender_over c.down.sender ≡ true
      → receiver_over c.up.receiver ≡ true
      → c' ≡ record c { server_open = false }
      → Moved c c'

pub step-Moved : (e : Event) (c : Connection) {c' : Connection} → step e c ≡ some c' → Moved c c'
unfolding step with_up with_down
step-Moved (on_up a) c e = elim (Option-cases (link_step c.client_open a c.up)) [
  | inl stuck ↦ absurd (none-ne-some _ (rw (stuck, with_up) at e))
  | inr (l, moved) ↦ up_moved a l moved (sym (some-injective _ _ (rw (moved, with_up) at e)))
]
step-Moved (on_down a) c e = elim (Option-cases (link_step c.server_open a c.down)) [
  | inl stuck ↦ absurd (none-ne-some _ (rw (stuck, with_down) at e))
  | inr (l, moved) ↦ down_moved a l moved (sym (some-injective _ _ (rw (moved, with_down) at e)))
]
step-Moved close_client c e = client_closed (ground arith) (ground arith) (ground arith)
step-Moved close_server c e = server_closed (ground arith) (ground arith) (ground arith)

-- What every event keeps holds after any run.
pub run_ind {ℓ} :
    (P : Connection → Type ℓ)
    → ((c c' : Connection) → Moved c c' → P c → P c')
    → (schedule : List Event) (c : Connection) {c' : Connection} → run schedule c ≡ some c'
    → P c
    → P c'
unfolding run
run_ind P keep [] c e p = subst P (some-injective _ _ e) p
run_ind P keep (x ∷ rest) c e p = elim (Option-cases (step x c)) [
  | inl stuck ↦ absurd (none-ne-some _ (rw (stuck, run) at e))
  | inr (next, moved) ↦
      run_ind P keep rest next (rw (moved, run) at e) (keep c next (step-Moved x c moved) p)
]
