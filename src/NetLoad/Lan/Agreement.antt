-- ===== src/NetLoad/Lan/Agreement.antt =====
-- The byte by which the two ends of a connection agree on who sends.
use til.Prelude.{ℕ, ◌≡◌, refl, ap, some, List, [], ◌∷◌, arith}
use mathlib.Core.Option.{none-ne-some}
use native.Mathlib.Decide.{ℕ_discrete}
use til.NetLoad.Lan.{
  Direction, send, recv, both, runs_sender, runs_receiver, announce, opposite, opposite_byte,
}

-- A client announces its direction by one byte; the server that reads this byte runs in a
-- direction in which it sends exactly if the client receives, and receives exactly if the client
-- sends.
opposite-announce :
    (dir : Direction)
    → (other : Direction) × (opposite (announce dir) ≡ some other)
      × (runs_sender other ≡ runs_receiver dir)
      × (runs_receiver other ≡ runs_sender dir)
unfolding opposite announce runs_sender runs_receiver
opposite-announce send = (recv, refl, refl, refl)
opposite-announce recv = (send, refl, refl, refl)
opposite-announce both = (both, refl, refl, refl)

-- The server accepts nothing but the three bytes that a client announces.
opposite-eq-some :
    (mode : List ℕ) {other : Direction}
    → opposite mode ≡ some other
    → (dir : Direction) × (mode ≡ announce dir)
unfolding opposite opposite_byte announce
opposite-eq-some [] e = absurd (none-ne-some _ e)
opposite-eq-some (m ∷ []) e = elim (ℕ_discrete m b'S') [
  | yes s ↦ (send, ap (λ x. x ∷ []) s)
  | no not_s ↦ elim (ℕ_discrete m b'R') [
    | yes r ↦ (recv, ap (λ x. x ∷ []) r)
    | no not_r ↦ (both, ap (λ x. x ∷ []) (ground arith))
  ]
]
opposite-eq-some (m ∷ n ∷ rest) e = absurd (none-ne-some _ e)
