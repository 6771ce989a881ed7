-- ===== src/Django/Urls.antt =====
-- What the urls.py files of the Django projects use of django.urls: `path`, `include` and the
-- administration site, as data; and the resolver, as a parameter with the behaviour that Django's
-- documentation states. A route is the list of its parts.
use Prim.Native.Char.{code}
use Prim.Native.String.{String}
use til.Prelude.{
  ℕ, ◌+◌, ◌-◌, ◌*◌, ◌≡◌, ◌⊎◌, inl, Bool, true, false, ◌&&◌, not, Option, none, some, List, [], ◌∷◌,
  ◌++◌, map, ◌==◌, leb, if◌then◌else◌,
}
use til.Django.{Text}
pub mod Apart
pub mod Exact

-- The code points of a text.
abbrev pub codes : String → Text
codes String.[] = []
codes (String.◌∷◌ c s) = code c ∷ codes s

abbrev pub is_digit : ℕ → Bool
is_digit c = leb b'0' c && leb c b'9'

abbrev pub all_digits : Text → Bool
all_digits [] = true
all_digits (c ∷ t) = is_digit c && all_digits t

abbrev pub is_empty : Text → Bool
is_empty [] = true
is_empty (c ∷ t) = false

-- What `[0-9]+` matches.
abbrev pub is_digits : Text → Bool
is_digits t = not (is_empty t) && all_digits t

abbrev pub value_from : ℕ → Text → ℕ
value_from n [] = n
value_from n (c ∷ t) = value_from (n * 10 + (c - b'0')) t

-- `t` is a decimal notation of `n`, with or without leading zeros.
abbrev pub IsNumeral : ℕ → Text → Type 0
IsNumeral n t = (is_digits t ≡ true) × (value_from 0 t ≡ n)

-- Literal text, or `<int:name>`.
pub data Piece : Type 0 where
  lit : Text → Piece
  int_part : Piece

-- A view with the numbers that its route captures.
abbrev pub Target : List Piece → Type 0 → Type 0
Target [] R = R
Target (lit t ∷ p) R = Target p R
Target (int_part ∷ p) R = ℕ → Target p R

-- A list `urlpatterns`, from its first pattern on. `admin_site` is `admin.site.urls` under a
-- prefix: what it resolves the rest of a path to.
pub data Patterns (R : Type 0) : Type 0 where
  done : Patterns R
  path : (p : List Piece) → Target p R → Patterns R → Patterns R
  include : Text → Patterns R → Patterns R → Patterns R
  admin_site : Text → (Text → Option R) → Patterns R → Patterns R

-- What a project serves: the pages of the administration site, and its own views.
abbrev pub Served : Type 0 → Type 0 → Type 0
Served Admin View = Admin ⊎ View

abbrev pub admin_page : {Admin View : Type 0} → Option Admin → Option (Served Admin View)
admin_page none = none
admin_page (some a) = some (inl a)

-- The text follows the route, and the numbers in it give the view `r`.
abbrev pub Spells : {R : Type 0} (p : List Piece) → Target p R → Text → R → Type 0
Spells [] v text r = (text ≡ []) × (v ≡ r)
Spells (lit t ∷ p) v text r = (tail : Text) × (text ≡ t ++ tail) × Spells p v tail r
Spells (int_part ∷ p) v text r =
    (n : ℕ) × (d : Text) × (tail : Text) × IsNumeral n d
    × (text ≡ d ++ tail)
    × Spells p (v n) tail r

-- A route letter by letter.
pub data Mark : Type 0 where
  letter : ℕ → Mark
  number : Mark

abbrev pub marks : List Piece → List Mark
marks [] = []
marks (lit t ∷ p) = map letter t ++ marks p
marks (int_part ∷ p) = number ∷ marks p

abbrev pub starts_clear : List Mark → Bool
starts_clear [] = true
starts_clear (letter c ∷ p) = not (is_digit c)
starts_clear (number ∷ p) = false

-- After each number the route ends or has a letter that is no digit.
abbrev pub all_clear : List Mark → Bool
all_clear [] = true
all_clear (letter c ∷ p) = all_clear p
all_clear (number ∷ p) = starts_clear p && all_clear p

-- `URLResolver.resolve`: the patterns are tried in order, and the first that matches is taken. A
-- route has to match the whole path; `<int>` matches one or more digits. `include` drops its prefix
-- and hands the rest of the path on; if nothing there matches, the next pattern is tried.
pub record Resolver (R : Type 0) : Type 0 where
  pub resolve : Patterns R → Text → Option R
  pub done_none : (text : Text) → resolve done text ≡ none
  pub path_matches :
      (p : List Piece) (v : Target p R) (rest : Patterns R) (text : Text) (r : R)
      → all_clear (marks p) ≡ true
      → Spells p v text r
      → resolve (path p v rest) text ≡ some r
  pub path_passes :
      (p : List Piece) (v : Target p R) (rest : Patterns R) (text : Text)
      → ((r : R) → ¬ Spells p v text r)
      → resolve (path p v rest) text ≡ resolve rest text
  pub path_resolves :
      (p : List Piece) (v : Target p R) (rest : Patterns R) (text : Text) (r : R)
      → resolve (path p v rest) text ≡ some r
      → Spells p v text r ⊎ (resolve rest text ≡ some r)
  pub include_matches :
      (pre : Text) (sub rest : Patterns R) (tail : Text) (r : R)
      → resolve sub tail ≡ some r
      → resolve (include pre sub rest) (pre ++ tail) ≡ some r
  pub include_passes :
      (pre : Text) (sub rest : Patterns R) (text : Text)
      → ((tail : Text) → text ≡ pre ++ tail → resolve sub tail ≡ none)
      → resolve (include pre sub rest) text ≡ resolve rest text
  pub include_resolves :
      (pre : Text) (sub rest : Patterns R) (text : Text) (r : R)
      → resolve (include pre sub rest) text ≡ some r
      → ((tail : Text) × (text ≡ pre ++ tail) × (resolve sub tail ≡ some r))
        ⊎ (resolve rest text ≡ some r)
  pub admin_matches :
      (pre : Text) (find : Text → Option R) (rest : Patterns R) (tail : Text) (r : R)
      → find tail ≡ some r
      → resolve (admin_site pre find rest) (pre ++ tail) ≡ some r
  pub admin_passes :
      (pre : Text) (find : Text → Option R) (rest : Patterns R) (text : Text)
      → ((tail : Text) → text ≡ pre ++ tail → find tail ≡ none)
      → resolve (admin_site pre find rest) text ≡ resolve rest text
  pub admin_resolves :
      (pre : Text) (find : Text → Option R) (rest : Patterns R) (text : Text) (r : R)
      → resolve (admin_site pre find rest) text ≡ some r
      → ((tail : Text) × (text ≡ pre ++ tail) × (find tail ≡ some r)) ⊎ (resolve rest text ≡ some r)

-- Some pattern of the list matches the text and gives `r`, whatever stands before it.
abbrev pub Finds : {R : Type 0} → Patterns R → Text → R → Type 0
Finds done text r = ⊥
Finds (path p v rest) text r = Spells p v text r ⊎ Finds rest text r
Finds (include pre sub rest) text r =
    ((tail : Text) × (text ≡ pre ++ tail) × Finds sub tail r) ⊎ Finds rest text r
Finds (admin_site pre find rest) text r =
    ((tail : Text) × (text ≡ pre ++ tail) × (find tail ≡ some r)) ⊎ Finds rest text r

-- No text follows both routes.
abbrev pub apart : List Mark → List Mark → Bool
apart [] [] = false
apart [] (m ∷ q) = true
apart (m ∷ p) [] = true
apart (letter c ∷ p) (letter d ∷ q) = if c == d then apart p q else true
apart (letter c ∷ p) (number ∷ q) = not (is_digit c)
apart (number ∷ p) (letter d ∷ q) = not (is_digit d)
apart (number ∷ p) (number ∷ q) = starts_clear p && (starts_clear q && apart p q)

-- No text with this prefix follows the route.
abbrev pub bars : Text → List Mark → Bool
bars [] q = false
bars (c ∷ pre) [] = true
bars (c ∷ pre) (letter d ∷ q) = if c == d then bars pre q else true
bars (c ∷ pre) (number ∷ q) = not (is_digit c)

-- `test` holds of every route, below the prefixes, and no administration site is left.
abbrev pub every_route : {R : Type 0} → (List Mark → Bool) → Text → Patterns R → Bool
every_route test above done = true
every_route test above (path p v rest) =
    test (map letter above ++ marks p) && every_route test above rest
every_route test above (include pre sub rest) =
    every_route test (above ++ pre) sub && every_route test above rest
every_route test above (admin_site pre find rest) = false

-- No pattern takes a path that is meant for a later one.
abbrev pub distinct : {R : Type 0} → Patterns R → Bool
distinct done = true
distinct (path p v rest) =
    all_clear (marks p) && (every_route (apart (marks p)) [] rest && distinct rest)
distinct (include pre sub rest) = distinct sub && (every_route (bars pre) [] rest && distinct rest)
distinct (admin_site pre find rest) = every_route (bars pre) [] rest && distinct rest
