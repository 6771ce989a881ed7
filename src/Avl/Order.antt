-- ===== src/Avl/Order.antt =====
-- The keys of a tree from left to right, and insertion into a sorted list, which `put_item` is
-- compared with.
use til.Prelude.{
  ◌+◌, max, ◌≡◌, refl, ap, sym, ◌∙◌, List, [], ◌∷◌, ◌++◌, append_assoc, Bool, true, false, Result,
  ok, raised, ◌>>=◌, All, All-append, Bool-cases, inl, inr, arith, if◌then◌else◌,
}
use til.Avl.Keys.{KeyOrder}
use til.Avl.{
  Error, Node, nil, node, height, different, left_turn, right_turn, straighten_left,
  straighten_right, balance, settle, put_item,
}

module _ {ℓ} {K : Type ℓ} where
  abbrev pub keys : Node K → List K
  keys nil = []
  keys (node key h left right) = keys left ++ key ∷ keys right

  -- What the tree that an operation returns holds.
  pub data Holds (l : List K) : Result Error (Node K) → Type ℓ where
    kept : {t : Node K} → keys t ≡ l → Holds l (ok t)
    failed : {e : Error} → Holds l (raised e)

  left_turn-keys : (t : Node K) → Holds (keys t) (left_turn t)
  unfolding left_turn
  left_turn-keys nil = failed
  left_turn-keys (node k h left nil) = failed
  left_turn-keys (node k h left (node xk xh xl xr)) =
      kept (append_assoc (keys left) (k ∷ keys xl) _)

  right_turn-keys : (t : Node K) → Holds (keys t) (right_turn t)
  unfolding right_turn
  right_turn-keys nil = failed
  right_turn-keys (node k h nil right) = failed
  right_turn-keys (node k h (node xk xh xl xr) right) =
      kept (sym (append_assoc (keys xl) (xk ∷ keys xr) _))

  Holds-if :
      (b : Bool) (l : List K) (x y : Result Error (Node K))
      → Holds l x
      → Holds l y
      → Holds l (if b then x else y)
  Holds-if true l x y p q = p
  Holds-if false l x y p q = q

  straighten_left-keys : (t : Node K) → Holds (keys t) (straighten_left t)
  unfolding straighten_left different
  straighten_left-keys nil = failed
  straighten_left-keys (node k h left right) =
      Holds-if _ _ _ _ (left_turn-keys (node k h left right)) (kept refl)

  straighten_right-keys : (t : Node K) → Holds (keys t) (straighten_right t)
  unfolding straighten_right different
  straighten_right-keys nil = failed
  straighten_right-keys (node k h left right) =
      Holds-if _ _ _ _ (right_turn-keys (node k h left right)) (kept refl)

  Holds-bind :
      (l m : List K) (r : Result Error (Node K)) (f : Node K → Result Error (Node K))
      → Holds m r
      → ((t : Node K) → keys t ≡ m → Holds l (f t))
      → Holds l (r >>= f)
  Holds-bind l m (ok t) f (kept p) q = q t p
  Holds-bind l m (raised e) f p q = failed

  Holds-cast : (l m : List K) (r : Result Error (Node K)) → l ≡ m → Holds l r → Holds m r
  Holds-cast l m (ok t) e (kept p) = kept (p ∙ e)
  Holds-cast l m (raised r) e p = failed

  -- Rotations keep the keys and their order.
  settle-keys :
      (key : K) (left right : Node K)
      → Holds (keys left ++ key ∷ keys right) (settle key left right)
  unfolding settle balance different
  settle-keys key left right =
      Holds-if _ _ _ _
        (Holds-bind _ (keys left) (straighten_left left) _ (straighten_left-keys left) λ t e.
          Holds-cast _ _ _ (ap (λ l. l ++ key ∷ keys right) e)
            (right_turn-keys (node key (max (height left) (height right) + 1) t right)))
        (Holds-if _ _ _ _
          (Holds-bind _ (keys right) (straighten_right right) _ (straighten_right-keys right) λ t e.
            Holds-cast _ _ _ (ap (λ l. keys left ++ key ∷ l) e)
              (left_turn-keys (node key (max (height left) (height right) + 1) left t)))
          (kept refl))

module _ {ℓ} {K : Type ℓ} ⦃o : KeyOrder K⦄ where
  -- Insertion into a sorted list without repetition.
  pub insert_key : K → List K → List K
  insert_key q [] = q ∷ []
  insert_key q (x ∷ xs) = elim (o.lt q x) [
    | true ↦ q ∷ x ∷ xs
    | false ↦ elim (o.lt x q) [ true ↦ x ∷ insert_key q xs | false ↦ x ∷ xs ]
  ]

  -- Strictly increasing.
  abbrev pub IsSorted : List K → Type 0
  IsSorted [] = Unit
  IsSorted (x ∷ xs) = All (λ y. o.lt x y ≡ true) xs × IsSorted xs

  insert_key-left :
      (q k : K) (xs ys : List K)
      → o.lt q k ≡ true
      → insert_key q (xs ++ k ∷ ys) ≡ insert_key q xs ++ k ∷ ys
  unfolding insert_key
  insert_key-left q k [] ys h = rw h
  insert_key-left q k (x ∷ xs) ys h = ground (arith, insert_key-left q k xs ys h)

  insert_key-right :
      (q : K) (xs ys : List K)
      → All (λ x. o.lt x q ≡ true) xs
      → insert_key q (xs ++ ys) ≡ xs ++ insert_key q ys
  unfolding insert_key
  insert_key-right q [] ys a = refl
  insert_key-right q (x ∷ xs) ys a =
      rw (o.lt_asymm x q a.0, a.0) (ap (λ l. x ∷ l) (insert_key-right q xs ys a.1))

  insert_key-present : (q : K) (xs : List K) → insert_key q (q ∷ xs) ≡ q ∷ xs
  unfolding insert_key
  insert_key-present q xs = ground (arith, o.lt_irrefl q)

  All-trans :
      (x k : K) (ys : List K)
      → o.lt x k ≡ true
      → All (λ y. o.lt k y ≡ true) ys
      → All (λ y. o.lt x y ≡ true) ys
  All-trans x k [] h a = tt
  All-trans x k (y ∷ ys) h a = (o.lt_trans x k y h a.0, All-trans x k ys h a.1)

  All-split {κ} : (P : K → Type κ) (xs ys : List K) → All P (xs ++ ys) → All P xs × All P ys
  All-split P [] ys a = (tt, a)
  All-split P (x ∷ xs) ys a = let (l, r) = All-split P xs ys a.1 in ((a.0, l), r)

  -- The three facts that a sorted `xs ++ k ∷ ys` gives about its parts.
  IsSorted-split :
      (xs : List K) (k : K) (ys : List K)
      → IsSorted (xs ++ k ∷ ys)
      → All (λ x. o.lt x k ≡ true) xs × IsSorted xs × IsSorted ys
  IsSorted-split [] k ys s = (tt, tt, s.1)
  IsSorted-split (x ∷ xs) k ys s =
      let (a, l, r) = IsSorted-split xs k ys s.1 in
      let (low, high) = All-split (λ y. o.lt x y ≡ true) xs (k ∷ ys) s.0 in
      ((high.0, a), (low, l), r)

  All-insert_key {κ} :
      (P : K → Type κ) (q : K) (xs : List K) → P q → All P xs → All P (insert_key q xs)
  unfolding insert_key
  All-insert_key P q [] p a = (p, tt)
  All-insert_key P q (x ∷ xs) p a = ground (arith, All-insert_key P q xs)

  pub insert_key-IsSorted : (q : K) (xs : List K) → IsSorted xs → IsSorted (insert_key q xs)
  unfolding insert_key
  insert_key-IsSorted q [] s = (tt, tt)
  insert_key-IsSorted q (x ∷ xs) s = ground (
    arith,
    insert_key-IsSorted q xs,
    All-trans q x xs,
    All-insert_key (λ y. o.lt x y ≡ true) q xs,
  )

  All-lt :
      (q k : K) (xs : List K)
      → All (λ x. o.lt x k ≡ true) xs
      → o.lt k q ≡ true
      → All (λ x. o.lt x q ≡ true) xs
  All-lt q k [] a h = tt
  All-lt q k (x ∷ xs) a h = (o.lt_trans x k q a.0 h, All-lt q k xs a.1 h)

  insert_key-after :
      (q k : K) (xs ys : List K)
      → IsSorted (xs ++ k ∷ ys)
      → o.lt k q ≡ true
      → insert_key q (xs ++ k ∷ ys) ≡ xs ++ k ∷ insert_key q ys
  insert_key-after q k xs ys s h =
      let below = (IsSorted-split xs k ys s).0 in
      ap (insert_key q) (sym (append_assoc xs (k ∷ []) ys))
      ∙ insert_key-right q (xs ++ k ∷ []) ys
          (All-append (λ x. o.lt x q ≡ true) xs (k ∷ []) (All-lt q k xs below h) (h, tt))
      ∙ append_assoc xs (k ∷ []) (insert_key q ys)

  insert_key-at :
      (q k : K) (xs ys : List K)
      → IsSorted (xs ++ k ∷ ys)
      → q ≡ k
      → insert_key q (xs ++ k ∷ ys) ≡ xs ++ k ∷ ys
  insert_key-at q k xs ys s e = rw e (
      insert_key-right k xs (k ∷ ys) (IsSorted-split xs k ys s).0
      ∙ ap (λ l. xs ++ l) (insert_key-present k ys))

  -- `put_item` on a search tree does to the keys what insertion does to the sorted list.
  pub put_item-keys :
      (t : Node K) (key : K) → IsSorted (keys t) → Holds (insert_key key (keys t)) (put_item t key)
  unfolding put_item insert_key
  put_item-keys nil key s = kept refl
  put_item-keys (node k h left right) key s =
      let (below, sl, sr) = IsSorted-split (keys left) k (keys right) s in
      elim (Bool-cases (o.lt key k)) [
        | inl less ↦
            rw (less, put_item, insert_key-left key k (keys left) (keys right) less)
              (Holds-bind _ _ (put_item left key) _ (put_item-keys left key sl)
                λ t e. Holds-cast _ _ _ (ap (λ l. l ++ k ∷ keys right) e) (settle-keys k t right))
        | inr not_less ↦
            rw (not_less, put_item)
              (elim (Bool-cases (o.lt k key)) [
                | inl more ↦
                    rw (more, put_item, insert_key-after key k (keys left) (keys right) s more)
                      (Holds-bind _ _ (put_item right key) _ (put_item-keys right key sr) λ t e.
                        Holds-cast _ _ _ (ap (λ l. keys left ++ k ∷ l) e) (settle-keys k left t))
                | inr same ↦
                    rw
                      (
                        same,
                        put_item,
                        insert_key-at key k (keys left) (keys right) s
                            (o.eq_of_not_lt key k not_less same),
                      )
                      (settle-keys k left right)
              ])
      ]
