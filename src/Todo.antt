-- ===== src/Todo.antt =====
-- 2022/DB/1006/03_db: accounts/views.py, accounts/models.py, accounts/forms.py, accounts/urls.py,
-- todos/models.py, todos/urls.py and config/urls.py. The administration pages are Django's.
use til.Prelude.{
  ℕ, ◌≡◌, Bool, true, false, ◌&&◌, ◌||◌, not, Option, none, some, List, [], ◌∷◌, ◌++◌, ◌==◌,
  if◌then◌else◌,
}
use til.Django.{
  Text, has_slash, Table, Method, get, post, same_method, Response, page, redirect, server_error,
  Decorators,
}
pub mod Errors
pub mod Routing

-- `AbstractUser`: the fields of `UserCreationForm`.
pub record User : Type 0 where
  pub username : Text
  pub password : Text

pub record Todo : Type 0 where
  pub title : Text
  pub completed : Bool
  pub author : ℕ

abbrev pub admin : Text
admin = b'a' ∷ b'd' ∷ b'm' ∷ b'i' ∷ b'n' ∷ []

abbrev pub todos : Text
todos = b't' ∷ b'o' ∷ b'd' ∷ b'o' ∷ b's' ∷ []

abbrev pub accounts : Text
accounts = b'a' ∷ b'c' ∷ b'c' ∷ b'o' ∷ b'u' ∷ b'n' ∷ b't' ∷ b's' ∷ []

-- The namespaces of the included URL configurations: each one's `app_name`.
abbrev pub namespaces : List Text
namespaces = admin ∷ todos ∷ accounts ∷ []

abbrev pub articles : Text
articles = b'a' ∷ b'r' ∷ b't' ∷ b'i' ∷ b'c' ∷ b'l' ∷ b'e' ∷ b's' ∷ []

abbrev pub index : Text
index = b'i' ∷ b'n' ∷ b'd' ∷ b'e' ∷ b'x' ∷ []

-- 'articles:index'
abbrev pub articles_index : Text
articles_index = articles ++ b':' ∷ index

abbrev pub same_text : Text → Text → Bool
same_text [] [] = true
same_text (a ∷ s) (b ∷ t) = (a == b) && same_text s t
same_text _ _ = false

abbrev pub is_one_of : Text → List Text → Bool
is_one_of t [] = false
is_one_of t (s ∷ rest) = same_text t s || is_one_of t rest

-- Neither a slash nor a dot nor a colon: a name, and nothing that `redirect` takes for an address.
abbrev pub is_name : Text → Bool
is_name [] = true
is_name (c ∷ rest) = not (c == b'/' || (c == b'.' || c == b':')) && is_name rest

-- Django under this project. `resolve_url` finds the address that `redirect` goes to, or raises
-- NoReverseMatch. `login_unsaved` is the visitor's session after `auth_login` in a request that ends
-- in a server error: the session is not saved then, and the old one has been discarded.
pub record Backend : Type 1 where
  pub Post : Type 0
  pub Session : Type 0
  pub users : Table User
  pub todo_table : Table Todo
  pub resolve_url : Text → Option Text
  pub resolve_url_path : (to : Text) → has_slash to ≡ true → resolve_url to ≡ some to
  pub resolve_url_unknown :
      (namespace name : Text)
      → is_name namespace ≡ true
      → is_name name ≡ true
      → is_one_of namespace namespaces ≡ false
      → resolve_url (namespace ++ b':' ∷ name) ≡ none
  pub authentication_form : Post → users.Rows → Option ℕ
  pub authentication_form_finds :
      (data_in : Post) (rows : users.Rows) (u : ℕ)
      → authentication_form data_in rows ≡ some u
      → (user : User) × (users.find u rows ≡ some user)
  pub creation_form : Post → users.Rows → Option (Text × Text)
  pub login : ℕ → User → Session → Session
  pub login_unsaved : ℕ → User → Session → Session
  pub logout : Session → Session
  pub user_of : Session → (ℕ → Option User) → Option ℕ
  pub user_of-login :
      (session : Session) (find : ℕ → Option User) (u : ℕ) (user : User)
      → find u ≡ some user
      → user_of (login u user session) find ≡ some u
  pub user_of-login_unsaved :
      (session : Session) (before after : ℕ → Option User) (u : ℕ) (user : User)
      → user_of session before ≡ none
      → user_of (login_unsaved u user session) after ≡ none
  pub user_of-logout :
      (session : Session) (find : ℕ → Option User) → user_of (logout session) find ≡ none

pub data Page : Type 0 where
  account_login account_signup : Page

-- The named URLs of accounts/urls.py.
pub data Route : Type 0 where
  signup_url login_url : Route

unfoldable pub is_authenticated : Option ℕ → Bool
is_authenticated none = false
is_authenticated (some u) = true

module _ (dj : Backend) where
  open dj use {Post, Session, users, todo_table, user_of}

  -- The database and the visitor's session.
  pub record Site : Type 0 where
    pub user_rows : users.Rows
    pub todo_rows : todo_table.Rows
    pub session : Session

  pub record Request : Type 0 where
    pub method : Method
    pub post_data : Post
    pub next : Option Text

  unfoldable pub request_user : Site → Option ℕ
  request_user site = user_of site.session (λ u. users.find u site.user_rows)

  abbrev pub Answer : Type 0
  Answer = Response Page Text × Site

module _ (dj : Backend) (deco : Decorators (Site dj) Page Text) where
  open dj use {
    Post, Session, users, resolve_url, authentication_form, creation_form, login, login_unsaved,
    logout,
  }
  open deco use {require_http_methods}

  -- `redirect(to)`, after what the view has done when it returns and when it raises.
  unfoldable pub redirect_to : Option Text → Site dj → Site dj → Answer dj
  redirect_to none saved unsaved = (server_error, unsaved)
  redirect_to (some address) saved unsaved = (redirect address, saved)

  -- `request.GET.get('next') or 'articles:index'`
  unfoldable pub after_login : Option Text → Text
  after_login none = articles_index
  after_login (some []) = articles_index
  after_login (some (c ∷ rest)) = c ∷ rest

  -- `auth_login(request, user)`, then `redirect(to)`.
  unfoldable pub log_in_to : Option Text → ℕ → User → Site dj → Answer dj
  unfolding redirect_to
  log_in_to to u user site =
      redirect_to to (record site { session = login u user site.session })
        (record site { session = login_unsaved u user site.session })

  unfoldable pub log_in_found : Request dj → ℕ → Option User → Site dj → Answer dj
  unfolding log_in_to after_login
  log_in_found r u none site = (page account_login, site)
  log_in_found r u (some user) site = log_in_to (resolve_url (after_login r.next)) u user site

  unfoldable pub log_in_as : Option ℕ → Request dj → Site dj → Answer dj
  unfolding log_in_found
  log_in_as none r site = (page account_login, site)
  log_in_as (some u) r site = log_in_found r u (users.find u site.user_rows) site

  unfoldable pub login_body : Request dj → Site dj → Answer dj
  unfolding log_in_as redirect_to is_authenticated
  login_body r site =
      if is_authenticated (request_user dj site)
      then redirect_to (resolve_url articles_index) site site
      else if same_method r.method post
      then log_in_as (authentication_form r.post_data site.user_rows) r site
      else (page account_login, site)

  unfoldable pub login_view : Request dj → Site dj → Answer dj
  unfolding login_body
  login_view r = require_http_methods (get ∷ post ∷ []) r.method (login_body r)

  -- `auth_logout` deletes the session at once.
  unfoldable pub logout_body : Site dj → Answer dj
  unfolding redirect_to is_authenticated
  logout_body site =
      let after =
        if is_authenticated (request_user dj site)
        then record site { session = logout site.session }
        else site in
      redirect_to (resolve_url articles_index) after after

  unfoldable pub logout_view : Request dj → Site dj → Answer dj
  unfolding logout_body
  logout_view r = require_http_methods (post ∷ []) r.method logout_body

  -- `form.save()`, `auth_login(request, user)`, then `redirect('articles:index')`.
  unfoldable pub sign_up : Option (Text × Text) → Site dj → Answer dj
  unfolding log_in_to
  sign_up none site = (page account_signup, site)
  sign_up (some (username, password)) site =
      let user : User = record { username = username; password = password } in
      let (u, rows) = users.insert user site.user_rows in
      log_in_to (resolve_url articles_index) u user (record site { user_rows = rows })

  unfoldable pub signup_body : Request dj → Site dj → Answer dj
  unfolding sign_up
  signup_body r site =
      if same_method r.method post
      then sign_up (creation_form r.post_data site.user_rows) site
      else (page account_signup, site)

  unfoldable pub signup : Request dj → Site dj → Answer dj
  unfolding signup_body
  signup r = require_http_methods (get ∷ post ∷ []) r.method (signup_body r)

  -- accounts/urls.py does not route `logout`.
  unfoldable pub serve : Route → Request dj → Site dj → Answer dj
  unfolding signup login_view
  serve signup_url r site = signup r site
  serve login_url r site = login_view r site
