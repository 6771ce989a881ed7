-- ===== src/Avl.antt =====
-- 자료구조 구현/트리/AVL/avltree.py: the classes `Node` and `Avl`.
-- A node hangs under one parent only, so a method that rewires nodes and returns the new top is a
-- function from trees to trees. Reading a field of `None` raises `attribute_error`. What
-- `put_item` prints on a repeated key is left out.
use til.Prelude.{ℕ, ◌+◌, max, true, false, Result, ok, raised, ◌>>=◌, if◌then◌else◌}
use til.Prelude.Int.{ℤ, pos, negsuc, sub_ℕ, ltb_ℤ}
use til.Avl.Keys.{KeyOrder}
pub mod Keys
pub mod Balance
pub mod Put
pub mod Order
pub mod Size
pub mod History

pub data Error : Type 0 where
  attribute_error : Error

-- `nil` is `None`. A node stores its key, its height and its two subtrees.
pub data Node {ℓ} (K : Type ℓ) : Type ℓ where
  nil : Node K
  node : K → ℕ → Node K → Node K → Node K

module _ {ℓ} {K : Type ℓ} where
  unfoldable pub height : Node K → ℕ
  height nil = 0
  height (node key h left right) = h

  unfoldable pub different : Node K → Result Error ℤ
  unfolding height
  different nil = raised attribute_error
  different (node key h left right) = ok (sub_ℕ (height left) (height right))

  unfoldable pub left_turn : Node K → Result Error (Node K)
  unfolding height
  left_turn nil = raised attribute_error
  left_turn (node key h left nil) = raised attribute_error
  left_turn (node key h left (node x_key x_h x_left x_right)) =
      let low = node key (max (height x_left) (height left) + 1) left x_left in
      ok (node x_key (max (height x_right) (height low) + 1) low x_right)

  unfoldable pub right_turn : Node K → Result Error (Node K)
  unfolding height
  right_turn nil = raised attribute_error
  right_turn (node key h nil right) = raised attribute_error
  right_turn (node key h (node x_key x_h x_left x_right) right) =
      let low = node key (max (height right) (height x_right) + 1) x_right right in
      ok (node x_key (max (height low) (height x_left) + 1) x_left low)

  -- The two inner `if`s: the subtree that is turned first, if it leans the other way.
  unfoldable pub straighten_left : Node K → Result Error (Node K)
  unfolding different left_turn
  straighten_left left = do d ← different left; if ltb_ℤ d (pos 0) then left_turn left else ok left

  unfoldable pub straighten_right : Node K → Result Error (Node K)
  unfolding different right_turn
  straighten_right right = do
    d ← different right
    if ltb_ℤ (pos 0) d then right_turn right else ok right

  unfoldable pub balance : Node K → Result Error (Node K)
  unfolding different straighten_left straighten_right right_turn left_turn
  balance nil = raised attribute_error
  balance (node key h left right) = do
    d ← different (node key h left right)
    if ltb_ℤ (pos 1) d
        then (straighten_left left >>= λ left'. right_turn (node key h left' right))
        else if ltb_ℤ d (negsuc 0)
        then (straighten_right right >>= λ right'. left_turn (node key h left right'))
        else ok (node key h left right)

  -- The last two lines of `put_item`.
  unfoldable pub settle : K → Node K → Node K → Result Error (Node K)
  unfolding balance height
  settle key left right = balance (node key (max (height left) (height right) + 1) left right)

module _ {ℓ} {K : Type ℓ} ⦃o : KeyOrder K⦄ where
  unfoldable pub put_item : Node K → K → Result Error (Node K)
  unfolding settle
  put_item nil key = ok (node key 1 nil nil)
  put_item (node k h left right) key = elim (o.lt key k) [
    | true ↦ put_item left key >>= λ left'. settle k left' right
    | false ↦ elim (o.lt k key) [
      | true ↦ put_item right key >>= λ right'. settle k left right'
      | false ↦ settle k left right
    ]
  ]

pub record Avl {ℓ} (K : Type ℓ) : Type ℓ where
  pub root : Node K

unfoldable pub init {ℓ} : {K : Type ℓ} → Avl K
init = record { root = nil }

unfoldable pub put {ℓ} : {K : Type ℓ} ⦃o : KeyOrder K⦄ → Avl K → K → Result Error (Avl K)
unfolding put_item
put avl key = put_item avl.root key >>= λ root'. ok (record { root = root' })
