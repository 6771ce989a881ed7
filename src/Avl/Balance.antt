-- ===== src/Avl/Balance.antt =====
-- The AVL invariant, and what `balance` returns for two AVL trees under a new top.
use til.Prelude.{ℕ, ◌+◌, ◌≤◌, ◌<◌, ◌≡◌, max, Returns, arith, true, false, ◌⊎◌, inl, inr}
use til.Prelude.Int.{pos, negsuc, sub_ℕ, ltb_ℤ}
use native.Mathlib.Decide.{dec_lt}
use til.Avl.{Node, nil, node, height, settle, balance}

left_leans : (a b : ℕ) → a ≡ b + 2 → ltb_ℤ (pos 1) (sub_ℕ a b) ≡ true
left_leans a b e = ground arith

right_leans :
    (a b : ℕ)
    → b ≡ a + 2
    → (ltb_ℤ (pos 1) (sub_ℕ a b) ≡ false) × (ltb_ℤ (sub_ℕ a b) (negsuc 0) ≡ true)
right_leans a b e = ground arith

level :
    (a b : ℕ)
    → a ≤ b + 1
    → b ≤ a + 1
    → (ltb_ℤ (pos 1) (sub_ℕ a b) ≡ false) × (ltb_ℤ (sub_ℕ a b) (negsuc 0) ≡ false)
level a b h k = ground arith

below_zero : (a b : ℕ) → a < b → ltb_ℤ (sub_ℕ a b) (pos 0) ≡ true
below_zero a b h = ground arith

not_below_zero : (a b : ℕ) → b ≤ a → ltb_ℤ (sub_ℕ a b) (pos 0) ≡ false
not_below_zero a b h = ground arith

above_zero : (a b : ℕ) → b < a → ltb_ℤ (pos 0) (sub_ℕ a b) ≡ true
above_zero a b h = ground arith

not_above_zero : (a b : ℕ) → a ≤ b → ltb_ℤ (pos 0) (sub_ℕ a b) ≡ false
not_above_zero a b h = ground arith

three_ways :
    (a b : ℕ) → a ≤ b + 2 → b ≤ a + 2 → (a ≡ b + 2) ⊎ ((b ≡ a + 2) ⊎ ((a ≤ b + 1) × (b ≤ a + 1)))
three_ways a b h k = grind arith

module _ {ℓ} {K : Type ℓ} where
  -- Each stored height is right, and the heights of two siblings differ by one at most.
  abbrev pub IsAvl : Node K → Type 0
  IsAvl nil = Unit
  IsAvl (node key h left right) =
      (h ≡ max (height left) (height right) + 1)
      × (height left ≤ height right + 1)
      × (height right ≤ height left + 1)
      × IsAvl left
      × IsAvl right

  -- What `balance` returns for two AVL trees whose heights differ by two at most.
  abbrev pub Settled : ℕ → ℕ → Node K → Type 0
  Settled a b t =
      IsAvl t
      × (max a b ≤ height t)
      × (height t ≤ max a b + 1)
      × (a ≤ b + 1 → b ≤ a + 1 → height t ≡ max a b + 1)

  settle_left :
      (key : K) (left right : Node K)
      → IsAvl left
      → IsAvl right
      → height left ≡ height right + 2
      → Returns (Settled (height left) (height right)) (settle key left right)
  unfolding settle balance
  settle_left key nil right a b e = absurd (omega arith)
  settle_left key (node lk lh ll nil) right a b e =
      rw (left_leans _ _ e, not_below_zero (height ll) 0 (omega arith)) (ground arith)
  settle_left key (node lk lh ll (node mk mh ml mr)) right a b e = elim (dec_lt (height ll) mh) [
    | yes h ↦ rw (left_leans _ _ e, below_zero (height ll) mh h) (ground arith)
    | no h ↦ rw (left_leans _ _ e, not_below_zero (height ll) mh (omega arith)) (ground arith)
  ]

  settle_right :
      (key : K) (left right : Node K)
      → IsAvl left
      → IsAvl right
      → height right ≡ height left + 2
      → Returns (Settled (height left) (height right)) (settle key left right)
  unfolding settle balance
  settle_right key left nil a b e = absurd (omega arith)
  settle_right key left (node rk rh nil rr) a b e =
      rw ((right_leans _ _ e).0, (right_leans _ _ e).1, not_above_zero 0 (height rr) (omega arith))
        (ground arith)
  settle_right key left (node rk rh (node mk mh ml mr) rr) a b e = elim (dec_lt (height rr) mh) [
    | yes h ↦
        rw ((right_leans _ _ e).0, (right_leans _ _ e).1, above_zero mh (height rr) h)
          (ground arith)
    | no h ↦
        rw
          (
            (right_leans _ _ e).0,
            (right_leans _ _ e).1,
            not_above_zero mh (height rr) (omega arith),
          )
          (ground arith)
  ]

  settle_level :
      (key : K) (left right : Node K)
      → IsAvl left
      → IsAvl right
      → height left ≤ height right + 1
      → height right ≤ height left + 1
      → Returns (Settled (height left) (height right)) (settle key left right)
  unfolding settle balance
  settle_level key left right a b h k = rw ((level _ _ h k).0, (level _ _ h k).1) (ground arith)

  -- No branch of `balance` raises, and what it returns is balanced again.
  pub settle_lem :
      (key : K) (left right : Node K)
      → IsAvl left
      → IsAvl right
      → height left ≤ height right + 2
      → height right ≤ height left + 2
      → Returns (Settled (height left) (height right)) (settle key left right)
  settle_lem key left right a b h k = elim (three_ways (height left) (height right) h k) [
    | inl e ↦ settle_left key left right a b e
    | inr (inl e) ↦ settle_right key left right a b e
    | inr (inr (h', k')) ↦ settle_level key left right a b h' k'
  ]
