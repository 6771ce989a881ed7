-- ===== src/Examples/Trees.antt =====
-- Trees of integers: avltree.py.
use til.Prelude.{◌+◌, ◌≤◌, ◌≡◌, refl, suc, List, [], ◌∷◌, ok, arith}
use til.Prelude.Int.{ℤ, pos, negsuc}
use til.Avl.Keys.{int_order}
use til.Avl.{nil, node, height, put_item, Avl, init, put}
use til.Avl.Size.{fib, size}
use til.Avl.Order.{keys, insert_key}
use til.Avl.History.{put_all, insert_all, IsValid, put_lem, put_all-init}

abbrev rising : List ℤ
rising = negsuc 4 ∷ pos 1 ∷ pos 2 ∷ pos 7 ∷ pos 4 ∷ pos 3 ∷ pos 2 ∷ []

abbrev two_keys : Avl ℤ
two_keys = record { root = node (pos 3) 2 nil (node (pos 5) 1 nil nil) }

abbrev turned : Avl ℤ
turned = record { root = node (pos 4) 2 (node (pos 3) 1 nil nil) (node (pos 5) 1 nil nil) }

-- The double turn.
test_put : put two_keys (pos 4) ≡ ok turned
unfolding put put_item int_order
test_put = refl

two_keys-IsValid : IsValid two_keys
unfolding int_order height
two_keys-IsValid = record { balanced = omega arith; sorted = ((refl, tt), (tt, tt)) }

put_lem_example :
    (avl' : Avl ℤ) × (put two_keys (pos 4) ≡ ok avl')
    × IsValid avl'
    × (keys avl'.root ≡ insert_key (pos 4) (keys two_keys.root))
put_lem_example = put_lem two_keys (pos 4) two_keys-IsValid

put_all-init_example :
    (avl : Avl ℤ) × (put_all init rising ≡ ok avl)
    × IsValid avl
    × (keys avl.root ≡ insert_all [] rising)
    × (fib (suc (suc (height avl.root))) ≤ size avl.root + 1)
put_all-init_example = put_all-init rising
