-- ===== src/Avl/Keys.antt =====
-- What avltree.py uses of its keys: the test `<` (and `>`, the same test turned round). The laws
-- are those of a strict linear order, and hold of Python's `int`.
use til.Prelude.{◌≡◌, Bool, true, false, arith}
use til.Prelude.Int.{ℤ, ltb_ℤ}

pub record KeyOrder {ℓ} (K : Type ℓ) : Type ℓ where
  pub lt : K → K → Bool
  pub lt_irrefl : (a : K) → lt a a ≡ false
  pub lt_asymm : (a b : K) → lt a b ≡ true → lt b a ≡ false
  pub lt_trans : (a b c : K) → lt a b ≡ true → lt b c ≡ true → lt a c ≡ true
  pub eq_of_not_lt : (a b : K) → lt a b ≡ false → lt b a ≡ false → a ≡ b

lt_irrefl_ℤ : (a : ℤ) → ltb_ℤ a a ≡ false
lt_irrefl_ℤ a = ground arith

lt_asymm_ℤ : (a b : ℤ) → ltb_ℤ a b ≡ true → ltb_ℤ b a ≡ false
lt_asymm_ℤ a b h = ground arith

lt_trans_ℤ : (a b c : ℤ) → ltb_ℤ a b ≡ true → ltb_ℤ b c ≡ true → ltb_ℤ a c ≡ true
lt_trans_ℤ a b c h k = ground arith

eq_of_not_lt_ℤ : (a b : ℤ) → ltb_ℤ a b ≡ false → ltb_ℤ b a ≡ false → a ≡ b
eq_of_not_lt_ℤ a b h k = ground arith

instance unfoldable pub int_order : KeyOrder ℤ
unfolding lt_irrefl_ℤ lt_asymm_ℤ lt_trans_ℤ eq_of_not_lt_ℤ
int_order = record {
  lt = ltb_ℤ;
  lt_irrefl = lt_irrefl_ℤ;
  lt_asymm = lt_asymm_ℤ;
  lt_trans = lt_trans_ℤ;
  eq_of_not_lt = eq_of_not_lt_ℤ;
}
