-- ===== src/Examples/Slots.antt =====
-- A table that meets the laws: the row of key k stands in slot k, and the next key is the number of
-- slots.
use mathlib.Core.List.Memᴰ
use mathlib.Core.List.{Memᴰ}
use mathlib.Core.Option.{some-injective, none-ne-some}
use til.Prelude.{
  ℕ, zero, suc, ◌≡◌, refl, sym, ap, subst, ◌∙◌, Bool, true, Option, none, some, List, [], ◌∷◌, ◌++◌,
  map, length, ◌==◌, if◌then◌else◌, Bool-cases, inl, inr, arith,
}
use til.Django.{Table, kept}

abbrev pub Slots : Type 0 → Type 0
Slots Row = List (Option Row)

module _ {Row : Type 0} where
  unfoldable pub find : ℕ → Slots Row → Option Row
  find k [] = none
  find zero (o ∷ rows) = o
  find (suc k) (o ∷ rows) = find k rows

  unfoldable pub insert : Row → Slots Row → ℕ × Slots Row
  insert row rows = (length rows, rows ++ some row ∷ [])

  unfoldable pub update : ℕ → Row → Slots Row → Slots Row
  update zero row [] = some row ∷ []
  update zero row (o ∷ rows) = some row ∷ rows
  update (suc k) row [] = none ∷ update k row []
  update (suc k) row (o ∷ rows) = o ∷ update k row rows

  unfoldable pub remove : (ℕ → Row → Bool) → Slots Row → Slots Row
  remove p [] = []
  remove p (o ∷ rows) = kept (p 0) o ∷ remove (λ k. p (suc k)) rows

  abbrev pub first : (Row → Bool) → Option Row → List (ℕ × Row) → List (ℕ × Row)
  first p none l = l
  first p (some row) l = if p row then (0, row) ∷ l else l

  unfoldable pub select : (ℕ → Row → Bool) → Slots Row → List (ℕ × Row)
  select p [] = []
  select p (o ∷ rows) = first (p 0) o (map (λ x. (suc x.0, x.1)) (select (λ k. p (suc k)) rows))

  pub insert_fresh : (row : Row) (rows : Slots Row) → find (insert row rows).0 rows ≡ none
  unfolding find insert
  insert_fresh row [] = refl
  insert_fresh row (o ∷ rows) = insert_fresh row rows

  pub find-insert :
      (k : ℕ) (row : Row) (rows : Slots Row)
      → find k (insert row rows).1 ≡ (if k == (insert row rows).0 then some row else find k rows)
  unfolding find insert
  find-insert zero row [] = refl
  find-insert (suc k) row [] = ground arith
  find-insert zero row (o ∷ rows) = ground arith
  find-insert (suc k) row (o ∷ rows) = find-insert k row rows ∙ ground arith

  pub find-update :
      (k pk : ℕ) (row : Row) (rows : Slots Row)
      → find k (update pk row rows) ≡ (if k == pk then some row else find k rows)
  unfolding find update
  find-update zero zero row [] = refl
  find-update (suc k) zero row [] = ground arith
  find-update zero zero row (o ∷ rows) = refl
  find-update (suc k) zero row (o ∷ rows) = ground arith
  find-update zero (suc pk) row [] = ground arith
  find-update (suc k) (suc pk) row [] = find-update k pk row [] ∙ ground arith
  find-update zero (suc pk) row (o ∷ rows) = ground arith
  find-update (suc k) (suc pk) row (o ∷ rows) = find-update k pk row rows ∙ ground arith

  pub find-remove :
      (k : ℕ) (p : ℕ → Row → Bool) (rows : Slots Row)
      → find k (remove p rows) ≡ kept (p k) (find k rows)
  unfolding find remove
  find-remove k p [] = refl
  find-remove zero p (o ∷ rows) = refl
  find-remove (suc k) p (o ∷ rows) = find-remove k (λ j. p (suc j)) rows

  abbrev pub Found : ℕ × Row → (ℕ → Row → Bool) → Slots Row → Type 0
  Found x p rows = (find x.0 rows ≡ some x.1) × (p x.0 x.1 ≡ true)

  abbrev pub later : (ℕ → Row → Bool) → ℕ → Row → Bool
  later p k = p (suc k)

  abbrev pub shift : ℕ × Row → ℕ × Row
  shift x = (suc x.0, x.1)

  shifted-Found :
      (x : ℕ × Row) (p : ℕ → Row → Bool) (o : Option Row) (rows : Slots Row)
      → ((y : ℕ × Row) → Memᴰ y (select (later p) rows) → Found y (later p) rows)
      → Memᴰ x (map shift (select (later p) rows))
      → Found x p (o ∷ rows)
  unfolding find
  shifted-Found x p o rows k m =
      let (y, below, e) = Memᴰ.of_map shift (select (later p) rows) m in
      subst (λ z. Found z p (o ∷ rows)) e (k y below)

  pub select-Found :
      (p : ℕ → Row → Bool) (rows : Slots Row) (x : ℕ × Row)
      → Memᴰ x (select p rows)
      → Found x p rows
  unfolding find select
  select-Found p [] x m = absurd (Memᴰ.not-nil m)
  select-Found p (none ∷ rows) x m = shifted-Found x p none rows (select-Found (later p) rows) m
  select-Found p (some row ∷ rows) x m = elim (Bool-cases (p 0 row)) [
    | inl here ↦ elim (Memᴰ.cases_cons (rw here at m)) [
      | inl e ↦ subst (λ z. Found z p (some row ∷ rows)) (sym e) (refl, here)
      | inr below ↦ shifted-Found x p (some row) rows (select-Found (later p) rows) below
    ]
    | inr out ↦ shifted-Found x p (some row) rows (select-Found (later p) rows) (rw out at m)
  ]

  first-Memᴰ :
      (p : Row → Bool) (o : Option Row) (x : ℕ × Row) (l : List (ℕ × Row))
      → Memᴰ x l
      → Memᴰ x (first p o l)
  first-Memᴰ p none x l m = m
  first-Memᴰ p (some row) x l m = elim (Bool-cases (p row)) [
    | inl here ↦ rw here (Memᴰ.tail m)
    | inr out ↦ rw out m
  ]

  pub Memᴰ-select :
      (p : ℕ → Row → Bool) (rows : Slots Row) (k : ℕ) (row : Row)
      → find k rows ≡ some row
      → p k row ≡ true
      → Memᴰ (k, row) (select p rows)
  unfolding find select
  Memᴰ-select p [] k row e t = absurd (none-ne-some _ e)
  Memᴰ-select p (none ∷ rows) zero row e t = absurd (none-ne-some _ e)
  Memᴰ-select p (some x ∷ rows) zero row e t =
      let same = some-injective _ _ e in
      let here : p 0 x ≡ true = rw same t in rw here (Memᴰ.head (ap (λ r. (0, r)) (sym same)))
  Memᴰ-select p (o ∷ rows) (suc k) row e t =
      first-Memᴰ (p 0) o _ _ (Memᴰ.map shift (Memᴰ-select (later p) rows k row e t))

abbrev pub slots : (Row : Type 0) → Table Row
slots Row = record {
  Rows = Slots Row;
  find = find;
  insert = insert;
  update = update;
  remove = remove;
  select = select;
  insert_fresh = insert_fresh;
  find-insert = find-insert;
  find-update = find-update;
  find-remove = find-remove;
  select_iff =
      λ k row p rows. (λ m. select-Found p rows (k, row) m, λ f. Memᴰ-select p rows k row f.0 f.1);
}
