-- ===== src/Examples/Paths.antt =====
-- A resolver that meets the laws: it reads a path from the left, a number as far as digits go.
use mathlib.Core.Option.{some-injective, none-ne-some}
use til.Prelude.{
  ◌≡◌, ◌⊎◌, inl, inr, refl, ap, true, false, Option, none, some, List, [], ◌∷◌, ◌++◌, map, ◌==◌,
  if◌then◌else◌, arith, Bool-cases, Option-cases,
}
use til.Django.{Text}
use til.Django.Urls.{
  is_digit, all_digits, is_digits, value_from, Piece, lit, int_part, Target, Patterns, done, path,
  include, admin_site, Spells, Mark, letter, marks, starts_clear, all_clear, Resolver,
}
use til.Django.Urls.Apart.{&&_split, ends_number, Spells-Follows, starts_clear-Follows}

-- The text after a prefix.
unfoldable pub strip : Text → Text → Option Text
strip [] text = some text
strip (c ∷ t) [] = none
strip (c ∷ t) (d ∷ text) = if c == d then strip t text else none

strip-append : (t tail : Text) → strip t (t ++ tail) ≡ some tail
unfolding strip
strip-append [] tail = refl
strip-append (c ∷ t) tail = ground (arith, strip-append t tail)

strip_sound : (t text tail : Text) → strip t text ≡ some tail → text ≡ t ++ tail
unfolding strip
strip_sound [] text tail e = some-injective _ _ e
strip_sound (c ∷ t) [] tail e = absurd (none-ne-some tail e)
strip_sound (c ∷ t) (d ∷ text) tail e = elim (Bool-cases (c == d)) [
  | inl same ↦
      let eq : c ≡ d = ground arith in
      let rest : text ≡ t ++ tail = strip_sound t text tail (rw same at e) in rw (eq, rest) refl
  | inr other ↦ absurd (none-ne-some tail (rw other at e))
]

unfoldable pub digits_of : Text → Text
digits_of [] = []
digits_of (c ∷ t) = if is_digit c then c ∷ digits_of t else []

unfoldable pub after_digits : Text → Text
after_digits [] = []
after_digits (c ∷ t) = if is_digit c then after_digits t else c ∷ t

digits_of-after : (t : Text) → t ≡ digits_of t ++ after_digits t
unfolding digits_of after_digits
digits_of-after [] = refl
digits_of-after (c ∷ t) = elim (Bool-cases (is_digit c)) [
  | inl digit ↦ rw digit (ap (λ s. c ∷ s) (digits_of-after t))
  | inr other ↦ rw other refl
]

digits_of-append :
    (d t : Text)
    → all_digits d ≡ true
    → ends_number t ≡ true
    → (digits_of (d ++ t) ≡ d) × (after_digits (d ++ t) ≡ t)
unfolding digits_of after_digits
digits_of-append [] [] h e = (refl, refl)
digits_of-append [] (c ∷ t) h e = ground arith
digits_of-append (c ∷ d) t h e =
    let (rest, tail) = digits_of-append d t (&&_split _ _ h).1 e in
    let digit : is_digit c ≡ true = (&&_split _ _ h).0 in rw digit (ap (λ s. c ∷ s) rest, tail)

all_clear-append :
    (t : Text) (p : List Mark) → all_clear (map letter t ++ p) ≡ true → all_clear p ≡ true
all_clear-append [] p h = h
all_clear-append (c ∷ t) p h = all_clear-append t p h

module _ {R : Type 0} where
  unfoldable pub read : (p : List Piece) → Target p R → Text → Option R
  unfolding strip digits_of after_digits
  read [] v [] = some v
  read [] v (c ∷ text) = none
  read (lit t ∷ p) v text = elim (strip t text) [ none ↦ none | some tail ↦ read p v tail ]
  read (int_part ∷ p) v text = elim (is_digits (digits_of text)) [
    | true ↦ read p (v (value_from 0 (digits_of text))) (after_digits text)
    | false ↦ none
  ]

  read-Spells :
      (p : List Piece) (v : Target p R) (text : Text) (r : R)
      → read p v text ≡ some r
      → Spells p v text r
  unfolding read
  read-Spells [] v [] r e = (refl, some-injective _ _ e)
  read-Spells [] v (c ∷ text) r e = absurd (none-ne-some r e)
  read-Spells (lit t ∷ p) v text r e = elim (Option-cases (strip t text)) [
    | inl fails ↦ absurd (none-ne-some r (rw (fails, read) at e))
    | inr (tail, fits) ↦
        (tail, strip_sound t text tail fits, read-Spells p v tail r (rw (fits, read) at e))
  ]
  read-Spells (int_part ∷ p) v text r e = elim (Bool-cases (is_digits (digits_of text))) [
    | inl some_digits ↦ (
      value_from 0 (digits_of text),
      digits_of text,
      after_digits text,
      (some_digits, refl),
      digits_of-after text,
      read-Spells p (v (value_from 0 (digits_of text))) (after_digits text) r
          (rw (some_digits, read) at e),
    )
    | inr no_digits ↦ absurd (none-ne-some r (rw (no_digits, read) at e))
  ]

  Spells-read :
      (p : List Piece) (v : Target p R) (text : Text) (r : R)
      → all_clear (marks p) ≡ true
      → Spells p v text r
      → read p v text ≡ some r
  unfolding read
  Spells-read [] v text r clear (e, same) = rw (e, same) refl
  Spells-read (lit t ∷ p) v text r clear (tail, e, h) = rw e (
      rw (strip-append t tail, read)
        (Spells-read p v tail r (all_clear-append t (marks p) clear) h))
  Spells-read (int_part ∷ p) v text r clear (n, d, tail, value, e, h) =
      let (starts, rest) = &&_split (starts_clear (marks p)) _ clear in
      let follows = Spells-Follows p (v n) tail r h in
      let (digits, after) =
        digits_of-append d tail (&&_split _ _ value.0).1
          (starts_clear-Follows (marks p) tail starts follows) in
      rw e (rw (digits, value.0, digits, after, value.1, read) (Spells-read p (v n) tail r rest h))

module _ {R : Type 0} where
  unfoldable pub or_else : Option R → Option R → Option R
  or_else none o = o
  or_else (some r) o = some r

  or_else-some : (a b : Option R) (r : R) → a ≡ some r → or_else a b ≡ some r
  unfolding or_else
  or_else-some a b r e = rw e refl

  or_else-none : (a b : Option R) → a ≡ none → or_else a b ≡ b
  unfolding or_else
  or_else-none a b e = rw e refl

  or_else_cases : (a b : Option R) (r : R) → or_else a b ≡ some r → (a ≡ some r) ⊎ (b ≡ some r)
  unfolding or_else
  or_else_cases none b r e = inr e
  or_else_cases (some x) b r e = inl e

  -- What `find` makes of the text after the prefix.
  unfoldable pub under : Text → (Text → Option R) → Text → Option R
  unfolding strip
  under pre find text = elim (strip pre text) [ none ↦ none | some tail ↦ find tail ]

  under-some :
      (pre : Text) (find : Text → Option R) (tail : Text) (r : R)
      → find tail ≡ some r
      → under pre find (pre ++ tail) ≡ some r
  unfolding under
  under-some pre find tail r e = rw (strip-append pre tail, under) e

  under-none :
      (pre : Text) (find : Text → Option R) (text : Text)
      → ((tail : Text) → text ≡ pre ++ tail → find tail ≡ none)
      → under pre find text ≡ none
  unfolding under
  under-none pre find text h = elim (Option-cases (strip pre text)) [
    | inl fails ↦ rw (fails, under) refl
    | inr (tail, fits) ↦ rw (fits, under) (h tail (strip_sound pre text tail fits))
  ]

  under_cases :
      (pre : Text) (find : Text → Option R) (text : Text) (r : R)
      → under pre find text ≡ some r
      → (tail : Text) × (text ≡ pre ++ tail) × (find tail ≡ some r)
  unfolding under
  under_cases pre find text r e = elim (Option-cases (strip pre text)) [
    | inl fails ↦ absurd (none-ne-some r (rw (fails, under) at e))
    | inr (tail, fits) ↦ (tail, strip_sound pre text tail fits, rw (fits, under) at e)
  ]

  unfoldable pub resolve : Patterns R → Text → Option R
  unfolding read under or_else
  resolve done text = none
  resolve (path p v rest) text = or_else (read p v text) (resolve rest text)
  resolve (include pre sub rest) text =
      or_else (under pre (λ t. resolve sub t) text) (resolve rest text)
  resolve (admin_site pre find rest) text = or_else (under pre find text) (resolve rest text)

  read-none :
      (p : List Piece) (v : Target p R) (text : Text)
      → ((r : R) → ¬ Spells p v text r)
      → read p v text ≡ none
  read-none p v text h = elim (Option-cases (read p v text)) [
    | inl nothing ↦ nothing
    | inr (r, e) ↦ absurd (h r (read-Spells p v text r e))
  ]

  or_else_map :
      {A : Type 0} (a b : Option R) (r : R)
      → (a ≡ some r → A)
      → or_else a b ≡ some r
      → A ⊎ (b ≡ some r)
  or_else_map a b r f e = elim (or_else_cases a b r e) [
    | inl here ↦ inl (f here)
    | inr late ↦ inr late
  ]

pub resolver : {R : Type 0} → Resolver R
unfolding resolve
resolver = record {
  resolve = resolve;
  done_none = λ text. refl;
  path_matches = λ p v rest text r clear h. or_else-some _ _ r (Spells-read p v text r clear h);
  path_passes = λ p v rest text h. or_else-none _ _ (read-none p v text h);
  path_resolves = λ p v rest text r e. or_else_map (read p v text) _ r (read-Spells p v text r) e;
  include_matches =
      λ pre sub rest tail r e. or_else-some _ _ r (under-some pre (resolve sub) tail r e);
  include_passes = λ pre sub rest text h. or_else-none _ _ (under-none pre (resolve sub) text h);
  include_resolves =
      λ pre sub rest text r e. or_else_map _ _ r (under_cases pre (resolve sub) text r) e;
  admin_matches = λ pre find rest tail r e. or_else-some _ _ r (under-some pre find tail r e);
  admin_passes = λ pre find rest text h. or_else-none _ _ (under-none pre find text h);
  admin_resolves = λ pre find rest text r e. or_else_map _ _ r (under_cases pre find text r) e;
}
