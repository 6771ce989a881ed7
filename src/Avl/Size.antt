-- ===== src/Avl/Size.antt =====
-- How high an AVL tree of a given number of nodes can be.
use til.Prelude.{ℕ, zero, suc, ◌+◌, ◌≤◌, ◌≡◌, refl, max, arith}
use native.Mathlib.Decide.{dec_le}
use til.Avl.{Node, nil, node, height}
use til.Avl.Balance.{IsAvl}

pub fib : ℕ → ℕ
fib zero = 0
fib (suc zero) = 1
fib (suc (suc n)) = fib (suc n) + fib n

fib_mono : (n : ℕ) → fib n ≤ fib (suc n)
unfolding fib
fib_mono zero = omega arith
fib_mono (suc n) = omega arith

fib_le : (m n : ℕ) → m ≤ n → fib m ≤ fib n
fib_le m zero h = let e : m ≡ 0 = omega arith in rw e (omega arith)
fib_le m (suc n) h = elim (dec_le m n) [
  | yes below ↦ omega (arith, fib_le m n below, fib_mono n)
  | no above ↦ let e : m ≡ suc n = omega arith in rw e (omega arith)
]

fib_step : (n : ℕ) → fib (suc (suc n)) ≡ fib (suc n) + fib n
unfolding fib
fib_step n = refl

size_step :
    (a b m n h : ℕ)
    → fib (suc (suc a)) ≤ m + 1
    → fib (suc (suc b)) ≤ n + 1
    → a ≤ b + 1
    → b ≤ a + 1
    → h ≡ max a b + 1
    → fib (suc (suc h)) ≤ m + n + 2
size_step a b m n h p q c d e = elim (dec_le a b) [
  | yes le ↦
      let e' : h ≡ suc b = omega arith in
      rw e' (omega (arith, fib_step (suc b), fib_le (suc b) (suc (suc a)) (omega arith)))
  | no gt ↦
      let e' : h ≡ suc a = omega arith in
      rw e' (omega (arith, fib_step (suc a), fib_le (suc a) (suc (suc b)) (omega arith)))
]

module _ {ℓ} {K : Type ℓ} where
  abbrev pub size : Node K → ℕ
  size nil = 0
  size (node key h left right) = suc (size left + size right)

  -- A tree of height h has at least as many nodes as the smallest such tree: the (h+2)nd Fibonacci
  -- number, less one.
  pub size-height : (t : Node K) → IsAvl t → fib (suc (suc (height t))) ≤ size t + 1
  unfolding height fib
  size-height nil a = omega arith
  size-height (node key h left right) a = omega (
    arith,
    size_step (height left) (height right) (size left) (size right) h (size-height left a.3)
        (size-height right a.4) a.1 a.2 a.0,
  )
