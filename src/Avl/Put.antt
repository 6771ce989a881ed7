-- ===== src/Avl/Put.antt =====
-- `put_item` of avltree.py and the AVL invariant.
use til.Prelude.{ℕ, ◌+◌, ◌≤◌, Returns, Result, ok, raised, ◌>>=◌, arith, Bool-cases, inl, inr}
use til.Avl.Keys.{KeyOrder}
use til.Avl.{Error, Node, nil, node, height, settle, put_item}
use til.Avl.Balance.{IsAvl, settle_lem}

module _ {ℓ} {K : Type ℓ} where
  -- One insertion makes a tree higher by one at most, and never lower.
  abbrev pub Grown : Node K → Node K → Type 0
  Grown t t' = IsAvl t' × (height t ≤ height t') × (height t' ≤ height t + 1)

  Returns-map :
      {P Q : Node K → Type 0} (r : Result Error (Node K))
      → Returns P r
      → ((t : Node K) → P t → Q t)
      → Returns Q r
  Returns-map (ok t) p f = f t p
  Returns-map (raised e) p f = p

  grow_left :
      (key : K) (h : ℕ) (left right : Node K) (inserted : Result Error (Node K))
      → IsAvl (node key h left right)
      → Returns (Grown left) inserted
      → Returns (Grown (node key h left right)) (inserted >>= λ left'. settle key left' right)
  unfolding height
  grow_left key h left right (ok left') a g =
      Returns-map (settle key left' right)
        (settle_lem key left' right g.0 a.4 (omega arith) (omega arith))
        (λ t' s. (s.0, grind arith, grind arith))
  grow_left key h left right (raised e) a g = g

  grow_right :
      (key : K) (h : ℕ) (left right : Node K) (inserted : Result Error (Node K))
      → IsAvl (node key h left right)
      → Returns (Grown right) inserted
      → Returns (Grown (node key h left right)) (inserted >>= λ right'. settle key left right')
  unfolding height
  grow_right key h left right (ok right') a g =
      Returns-map (settle key left right')
        (settle_lem key left right' a.3 g.0 (omega arith) (omega arith))
        (λ t' s. (s.0, grind arith, grind arith))
  grow_right key h left right (raised e) a g = g

module _ {ℓ} {K : Type ℓ} ⦃o : KeyOrder K⦄ where
  -- On an AVL tree `put_item` raises no error, and it returns an AVL tree that is as high as the
  -- old one or higher by one.
  pub put_item-IsAvl : (t : Node K) (key : K) → IsAvl t → Returns (Grown t) (put_item t key)
  unfolding put_item
  put_item-IsAvl nil key a = omega arith
  put_item-IsAvl (node k h left right) key a = elim (Bool-cases (o.lt key k)) [
    | inl less ↦
        rw (less, Returns)
          (grow_left k h left right (put_item left key) a (put_item-IsAvl left key a.3))
    | inr not_less ↦
        rw (not_less, Returns)
          (elim (Bool-cases (o.lt k key)) [
            | inl more ↦
                rw (more, Returns)
                  (grow_right k h left right (put_item right key) a (put_item-IsAvl right key a.4))
            | inr same ↦
                rw (same, Returns)
                  (grow_left k h left right (ok left) a (a.3, omega arith, omega arith))
          ])
  ]
