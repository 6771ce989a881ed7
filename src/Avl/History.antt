-- ===== src/Avl/History.antt =====
-- Any sequence of `put` calls on a new tree.
use til.Prelude.{◌+◌, ◌≤◌, ◌≡◌, refl, suc, List, [], ◌∷◌, Result, ok, raised, ◌>>=◌, Returns}
use til.Avl.Keys.{KeyOrder}
use til.Avl.{Error, Node, height, put_item, Avl, init, put}
use til.Avl.Balance.{IsAvl}
use til.Avl.Put.{Grown, put_item-IsAvl}
use til.Avl.Size.{fib, size, size-height}
use til.Avl.Order.{keys, Holds, kept, insert_key, IsSorted, put_item-keys, insert_key-IsSorted}

module _ {ℓ} {K : Type ℓ} ⦃o : KeyOrder K⦄ where
  pub put_all : Avl K → List K → Result Error (Avl K)
  put_all avl [] = ok avl
  put_all avl (key ∷ rest) = put avl key >>= λ avl'. put_all avl' rest

  -- The specification: the same insertions into a sorted list.
  pub insert_all : List K → List K → List K
  insert_all l [] = l
  insert_all l (key ∷ rest) = insert_all (insert_key key l) rest

  -- The invariant of the class.
  pub record IsValid (avl : Avl K) : Type 0 where
    pub balanced : IsAvl avl.root
    pub sorted : IsSorted (keys avl.root)

  put_item_lem :
      (avl : Avl K) (key : K) (r : Result Error (Node K))
      → put_item avl.root key ≡ r
      → Returns (Grown avl.root) r
      → Holds (insert_key key (keys avl.root)) r
      → IsSorted (keys avl.root)
      → (avl' : Avl K) × (put avl key ≡ ok avl')
        × IsValid avl'
        × (keys avl'.root ≡ insert_key key (keys avl.root))
  unfolding put
  put_item_lem avl key (ok t) e g (kept p) s = (
    record { root = t },
    rw e,
    record { balanced = g.0; sorted = rw p (insert_key-IsSorted key (keys avl.root) s) },
    p,
  )
  put_item_lem avl key (raised x) e g h s = absurd g

  -- On a valid tree `put` raises no error. The new tree is valid again, and its keys are the
  -- sorted list of the old keys with the new one inserted, if it was not there.
  pub put_lem :
      (avl : Avl K) (key : K)
      → IsValid avl
      → (avl' : Avl K) × (put avl key ≡ ok avl')
        × IsValid avl'
        × (keys avl'.root ≡ insert_key key (keys avl.root))
  put_lem avl key v =
      put_item_lem avl key (put_item avl.root key) refl (put_item-IsAvl avl.root key v.balanced)
        (put_item-keys avl.root key v.sorted) v.sorted

  put_all-from :
      (avl : Avl K) (l : List K)
      → IsValid avl
      → (avl' : Avl K) × (put_all avl l ≡ ok avl')
        × IsValid avl'
        × (keys avl'.root ≡ insert_all (keys avl.root) l)
  unfolding put_all insert_all
  put_all-from avl [] v = (avl, refl, v, refl)
  put_all-from avl (key ∷ rest) v =
      let (next, done, valid, same) = put_lem avl key v in
      let (last, done', valid', same') = put_all-from next rest valid in
      (last, rw done done', valid', rw (← same) same')

  -- Any sequence of `put` calls on a new tree succeeds: the tree is balanced and sorted, its keys are
  -- those of inserting the same keys one by one into a sorted list, and a tree of height h has at
  -- least fib (h + 2) - 1 nodes.
  pub put_all-init :
      (l : List K)
      → (avl : Avl K) × (put_all init l ≡ ok avl)
        × IsValid avl
        × (keys avl.root ≡ insert_all [] l)
        × (fib (suc (suc (height avl.root))) ≤ size avl.root + 1)
  unfolding init
  put_all-init l =
      let (avl, done, valid, same) = put_all-from init l (record { balanced = tt; sorted = tt }) in
      (avl, done, valid, same, size-height avl.root valid.balanced)
