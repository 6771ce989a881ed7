-- ===== src/Django/Tables.antt =====
-- What a row found after an operation on a table was before it.
use mathlib.Core.Option.{some-injective, none-ne-some}
use til.Prelude.{
  ℕ, ◌≡◌, ◌⊎◌, inl, inr, refl, sym, ap, ◌∙◌, Bool, true, false, Option, none, some, ◌==◌,
  if◌then◌else◌, arith, Bool-cases,
}
use til.Django.{Table, kept}

if_some :
    {Row : Type 0} (b : Bool) (row x : Row) (o : Option Row)
    → (if b then some row else o) ≡ some x
    → ((b ≡ true) × (x ≡ row)) ⊎ (o ≡ some x)
if_some true row x o e = inl (refl, sym (some-injective _ _ e))
if_some false row x o e = inr e

kept-eq-some :
    {Row : Type 0} (p : Row → Bool) (o : Option Row) (x : Row)
    → kept p o ≡ some x
    → (o ≡ some x) × (p x ≡ false)
kept-eq-some p none x e = absurd (cc)
kept-eq-some p (some row) x e = elim (Bool-cases (p row)) [
  | inl gone ↦ absurd (none-ne-some _ (rw gone at e))
  | inr stays ↦ let same = some-injective _ _ (rw stays at e) in (ap some same, rw (← same) stays)
]

eq_of_== : (a b : ℕ) → (a == b) ≡ true → a ≡ b
eq_of_== a b h = ground arith

module _ {Row : Type 0} (t : Table Row) where
  open t use {Rows, find, insert, update, remove}

  pub insert_cases :
      (k : ℕ) (row x : Row) (rows : Rows)
      → find k (insert row rows).1 ≡ some x
      → (x ≡ row) ⊎ (find k rows ≡ some x)
  insert_cases k row x rows e =
      elim (if_some _ row x (find k rows) (sym (t.find-insert k row rows) ∙ e)) [
        | inl (_, new) ↦ inl new
        | inr old ↦ inr old
      ]

  pub insert_self :
      (row : Row) (rows : Rows) → find (insert row rows).0 (insert row rows).1 ≡ some row
  insert_self row rows = t.find-insert (insert row rows).0 row rows ∙ ground arith

  pub insert_keeps :
      (k : ℕ) (row x : Row) (rows : Rows)
      → find k rows ≡ some x
      → find k (insert row rows).1 ≡ some x
  insert_keeps k row x rows e = elim (Bool-cases (k == (insert row rows).0)) [
    | inl new ↦ absurd (none-ne-some x (sym (t.insert_fresh row rows) ∙ rw (eq_of_== k _ new) at e))
    | inr old ↦ t.find-insert k row rows ∙ rw old e
  ]

  pub update_cases :
      (k pk : ℕ) (row x : Row) (rows : Rows)
      → find k (update pk row rows) ≡ some x
      → ((k ≡ pk) × (x ≡ row)) ⊎ (find k rows ≡ some x)
  update_cases k pk row x rows e =
      elim (if_some _ row x (find k rows) (sym (t.find-update k pk row rows) ∙ e)) [
        | inl (new, same) ↦ inl (eq_of_== k pk new, same)
        | inr old ↦ inr old
      ]

  pub update_self : (pk : ℕ) (row : Row) (rows : Rows) → find pk (update pk row rows) ≡ some row
  update_self pk row rows = t.find-update pk pk row rows ∙ ground arith

  -- A row that was there is there still, perhaps changed.
  pub update_keeps :
      (k pk : ℕ) (row x : Row) (rows : Rows)
      → find k rows ≡ some x
      → (y : Row) × (find k (update pk row rows) ≡ some y)
  update_keeps k pk row x rows e = elim (Bool-cases (k == pk)) [
    | inl here ↦ (row, t.find-update k pk row rows ∙ rw here refl)
    | inr there ↦ (x, t.find-update k pk row rows ∙ rw there e)
  ]

  pub remove_cases :
      (k : ℕ) (p : ℕ → Row → Bool) (x : Row) (rows : Rows)
      → find k (remove p rows) ≡ some x
      → (find k rows ≡ some x) × (p k x ≡ false)
  remove_cases k p x rows e = kept-eq-some (p k) (find k rows) x (sym (t.find-remove k p rows) ∙ e)

  pub remove_keeps :
      (k : ℕ) (p : ℕ → Row → Bool) (x : Row) (rows : Rows)
      → find k rows ≡ some x
      → p k x ≡ false
      → find k (remove p rows) ≡ some x
  remove_keeps k p x rows e stays = t.find-remove k p rows ∙ rw (e, stays) refl
