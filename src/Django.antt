-- ===== src/Django.antt =====
-- What the Django projects of 2022/DB use of Django, as parameters with the behaviour that its
-- documentation states: tables behind model managers, and the decorators of views.
use mathlib.Core.List.{Memᴰ}
use til.Prelude.{
  ℕ, ◌≡◌, ◌↔◌, Bool, true, false, Option, none, some, List, [], ◌∷◌, ◌==◌, ◌||◌, if◌then◌else◌,
}
pub mod Decorated
pub mod Tables
pub mod Urls

pub data Method : Type 0 where
  get head post put delete options trace other : Method

unfoldable pub same_method : Method → Method → Bool
same_method get get = true
same_method head head = true
same_method post post = true
same_method put put = true
same_method delete delete = true
same_method options options = true
same_method trace trace = true
same_method other other = true
same_method _ _ = false

unfoldable pub is_in : Method → List Method → Bool
unfolding same_method
is_in m [] = false
is_in m (n ∷ rest) = same_method m n || is_in m rest

abbrev pub Text : Type 0
Text = List ℕ

-- Such a text is no name of a view, and `redirect` uses it as the address that it is.
abbrev pub has_slash : Text → Bool
has_slash [] = false
has_slash (c ∷ rest) = c == b'/' || has_slash rest

-- A row that a deletion may take away.
abbrev pub kept {ℓ} : {Row : Type ℓ} → (Row → Bool) → Option Row → Option Row
kept p none = none
kept p (some row) = if p row then none else some row

-- A table of the database behind `Model.objects`: `get(pk=…)`, `save()` of a new and of an old
-- instance, `delete()` of the rows of a query, and `filter(…)`. The database chooses new keys.
pub record Table (Row : Type 0) : Type 1 where
  pub Rows : Type 0
  pub find : ℕ → Rows → Option Row
  pub insert : Row → Rows → ℕ × Rows
  pub update : ℕ → Row → Rows → Rows
  pub remove : (ℕ → Row → Bool) → Rows → Rows
  pub select : (ℕ → Row → Bool) → Rows → List (ℕ × Row)
  pub insert_fresh : (row : Row) (rows : Rows) → find (insert row rows).0 rows ≡ none
  pub find-insert :
      (k : ℕ) (row : Row) (rows : Rows)
      → find k (insert row rows).1 ≡ (if k == (insert row rows).0 then some row else find k rows)
  pub find-update :
      (k pk : ℕ) (row : Row) (rows : Rows)
      → find k (update pk row rows) ≡ (if k == pk then some row else find k rows)
  pub find-remove :
      (k : ℕ) (p : ℕ → Row → Bool) (rows : Rows) → find k (remove p rows) ≡ kept (p k) (find k rows)
  pub select_iff :
      (k : ℕ) (row : Row) (p : ℕ → Row → Bool) (rows : Rows)
      → Memᴰ (k, row) (select p rows) ↔ ((find k rows ≡ some row) × (p k row ≡ true))

-- What a view answers. `server_error` is an exception that Django turns into a 500.
pub data Response (Page Target : Type 0) : Type 0 where
  page : Page → Response Page Target
  redirect : Target → Response Page Target
  to_login : Response Page Target
  not_found : Response Page Target
  not_allowed : Response Page Target
  server_error : Response Page Target

abbrev pub View : Type 0 → Type 0 → Type 0 → Type 0
View Site Page Target = Site → Response Page Target × Site

-- `require_http_methods` (with `require_POST` and `require_safe`, its instances) and
-- `login_required`, each given what it reads of the request.
pub record Decorators (Site Page Target : Type 0) : Type 0 where
  pub require_http_methods : List Method → Method → View Site Page Target → View Site Page Target
  pub login_required : Bool → View Site Page Target → View Site Page Target
  pub method_in :
      (ms : List Method) (m : Method) (view : View Site Page Target) (site : Site)
      → is_in m ms ≡ true
      → require_http_methods ms m view site ≡ view site
  pub method_out :
      (ms : List Method) (m : Method) (view : View Site Page Target) (site : Site)
      → is_in m ms ≡ false
      → require_http_methods ms m view site ≡ (not_allowed, site)
  pub logged_in :
      (view : View Site Page Target) (site : Site) → login_required true view site ≡ view site
  pub logged_out :
      (view : View Site Page Target) (site : Site)
      → login_required false view site ≡ (to_login, site)
