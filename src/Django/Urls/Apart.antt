-- ===== src/Django/Urls/Apart.antt =====
-- Routes that no text follows both of: what the tests `apart` and `bars` decide.
use til.Prelude.{
  ℕ, ◌≡◌, refl, sym, ◌∙◌, Bool, true, false, ◌&&◌, not, List, [], ◌∷◌, ◌++◌, map, arith,
}
use til.Django.{Text}
use til.Django.Urls.{
  is_digit, all_digits, is_digits, Piece, lit, int_part, Target, Spells, Mark, letter, number,
  marks, starts_clear, apart, bars,
}

pub &&_split : (a b : Bool) → (a && b) ≡ true → (a ≡ true) × (b ≡ true)
&&_split true b h = (refl, h)
&&_split false b h = absurd (cc)

-- The text follows the route, letter by letter.
abbrev pub Follows : List Mark → Text → Type 0
Follows [] text = text ≡ []
Follows (letter c ∷ p) text = (tail : Text) × (text ≡ c ∷ tail) × Follows p tail
Follows (number ∷ p) text =
    (d : Text) × (tail : Text) × (is_digits d ≡ true) × (text ≡ d ++ tail) × Follows p tail

pub Follows-append :
    (t : Text) (p : List Mark) (tail : Text)
    → Follows p tail
    → Follows (map letter t ++ p) (t ++ tail)
Follows-append [] p tail h = h
Follows-append (c ∷ t) p tail h = (t ++ tail, refl, Follows-append t p tail h)

pub Spells-Follows :
    {R : Type 0} (p : List Piece) (v : Target p R) (text : Text) (r : R)
    → Spells p v text r
    → Follows (marks p) text
Spells-Follows [] v text r (e, same) = e
Spells-Follows (lit t ∷ p) v text r (tail, e, h) =
    rw e (Follows-append t (marks p) tail (Spells-Follows p v tail r h))
Spells-Follows (int_part ∷ p) v text r (n, d, tail, value, e, h) =
    (d, tail, value.0, e, Spells-Follows p (v n) tail r h)

-- A text that does not begin with a digit.
abbrev pub ends_number : Text → Bool
ends_number [] = true
ends_number (c ∷ t) = not (is_digit c)

pub starts_clear-Follows :
    (p : List Mark) (text : Text) → starts_clear p ≡ true → Follows p text → ends_number text ≡ true
starts_clear-Follows [] text clear h = rw h refl
starts_clear-Follows (letter c ∷ p) text clear (tail, e, h) = rw e clear
starts_clear-Follows (number ∷ p) text clear h = absurd (cc)

not_digit : (c : ℕ) → not (is_digit c) ≡ true → is_digit c ≡ true → ⊥
not_digit c h e = absurd (ground arith)

-- The digits at the head of a text are determined.
digits_determined :
    (d e s t : Text)
    → all_digits d ≡ true
    → all_digits e ≡ true
    → ends_number s ≡ true
    → ends_number t ≡ true
    → d ++ s ≡ e ++ t
    → (d ≡ e) × (s ≡ t)
digits_determined [] [] s t hd he hs ht same = (refl, same)
digits_determined [] (c ∷ e) s t hd he hs ht same =
    absurd (not_digit c (rw same at hs) (&&_split _ _ he).0)
digits_determined (c ∷ d) [] s t hd he hs ht same =
    absurd (not_digit c (rw (← same) at ht) (&&_split _ _ hd).0)
digits_determined (c ∷ d) (c' ∷ e) s t hd he hs ht same =
    let heads : c ≡ c' = cc in
    let tails : d ++ s ≡ e ++ t = cc in
    let rest : (d ≡ e) × (s ≡ t) =
      digits_determined d e s t (&&_split _ _ hd).1 (&&_split _ _ he).1 hs ht tails in
    (rw (heads, rest.0) refl, rest.1)

head_digit :
    (c : ℕ) (d s tail : Text) → is_digits d ≡ true → c ∷ tail ≡ d ++ s → not (is_digit c) ≡ true → ⊥
head_digit c [] s tail hd e h = cc
head_digit c (c' ∷ d) s tail hd e h =
    let same : c ≡ c' = cc in not_digit c h (rw same (&&_split _ _ hd).0)

no_digits : (d s : Text) → is_digits d ≡ true → [] ≡ d ++ s → ⊥
no_digits [] s hd e = cc
no_digits (c ∷ d) s hd e = cc

pub apart_sound :
    (p q : List Mark) (text : Text) → apart p q ≡ true → Follows p text → Follows q text → ⊥
apart_sound [] [] text h f g = cc
apart_sound [] (letter d ∷ q) text h f (tail, e, g) = cc
apart_sound [] (number ∷ q) text h f (d, tail, hd, e, g) = no_digits d tail hd (sym f ∙ e)
apart_sound (letter c ∷ p) [] text h (tail, e, f) g = cc
apart_sound (number ∷ p) [] text h (d, tail, hd, e, f) g = no_digits d tail hd (sym g ∙ e)
apart_sound (letter c ∷ p) (letter d ∷ q) text h (tail, e, f) (tail', e', g) =
    let same : tail' ≡ tail = cc in apart_sound p q tail (ground arith) f (rw (← same) g)
apart_sound (letter c ∷ p) (number ∷ q) text h (tail, e, f) (d, tail', hd, e', g) =
    head_digit c d tail' tail hd (sym e ∙ e') h
apart_sound (number ∷ p) (letter c ∷ q) text h (d, tail, hd, e, f) (tail', e', g) =
    head_digit c d tail tail' hd (sym e' ∙ e) h
apart_sound (number ∷ p) (number ∷ q) text h (d, s, hd, e, f) (d', t, hd', e', g) =
    let (cp, more) = &&_split _ _ h in
    let (cq, tails) = &&_split _ _ more in
    let same =
      digits_determined d d' s t (&&_split _ _ hd).1 (&&_split _ _ hd').1
        (starts_clear-Follows p s cp f) (starts_clear-Follows q t cq g) (sym e ∙ e') in
    apart_sound p q s tails f (rw same.1 g)

pub bars_sound :
    (pre : Text) (q : List Mark) (tail : Text) → bars pre q ≡ true → Follows q (pre ++ tail) → ⊥
bars_sound [] q tail h g = cc
bars_sound (c ∷ pre) [] tail h g = cc
bars_sound (c ∷ pre) (letter d ∷ q) tail h (tail', e, g) =
    let same : tail' ≡ pre ++ tail = cc in bars_sound pre q tail (ground arith) (rw (← same) g)
bars_sound (c ∷ pre) (number ∷ q) tail h (d, tail', hd, e, g) =
    head_digit c d tail' (pre ++ tail) hd e h
