-- ===== src/Blog/Models.antt =====
-- accounts/models.py, articles/models.py and the forms of both applications, over the parts of
-- Django that they use. The time stamps of the rows are left out.
use til.Prelude.{ℕ, ◌≡◌, ◌≤◌, Bool, true, false, Option, none, some, List, length, ◌==◌}
use mathlib.Core.List.{Memᴰ}
use til.Settings.{Validator, Passes}
use til.Settings.Blog.{auth_password_validators}
use til.Django.{Text, has_slash, Table, Method, Decorators}

-- `AbstractUser`: the fields that the forms of this project touch. `password` is the text that was
-- given; the database holds its hash.
pub record User : Type 0 where
  pub username : Text
  pub password : Text
  pub email : Text
  pub first_name : Text
  pub last_name : Text

pub record Article : Type 0 where
  pub title : Text
  pub content : Text
  pub user : ℕ

pub record Comment : Type 0 where
  pub content : Text
  pub article : ℕ

abbrev pub title_max : ℕ
title_max = 10

abbrev pub comment_max : ℕ
comment_max = 200

-- Django under this project. The forms for a new password run the validators of the settings. A form
-- is what its `is_valid()` leaves in `cleaned_data`, or `none`; `article_form_instance` is what it
-- makes of the instance meanwhile, by the fields that are valid.
-- The validators of a model form are those of the model's fields, the lengths among them.
-- `login_unsaved` is the visitor's session after `auth_login` in a request that ends in a server
-- error: the session is not saved then. `resolve_url` finds the address that `redirect` goes to, or
-- raises NoReverseMatch.
pub record Backend : Type 1 where
  pub Post : Type 0
  pub Session : Type 0
  pub resolve_url : Text → Option Text
  pub resolve_url_path : (to : Text) → has_slash to ≡ true → resolve_url to ≡ some to
  pub users : Table User
  pub articles : Table Article
  pub comments : Table Comment
  pub article_form : Post → Option (Text × Text)
  pub comment_form : Post → Option Text
  pub article_form_instance : Post → Article → Article
  pub article_form_fits :
      (data_in : Post) (title content : Text)
      → article_form data_in ≡ some (title, content)
      → length title ≤ title_max
  pub comment_form_fits :
      (data_in : Post) (content : Text)
      → comment_form data_in ≡ some content
      → length content ≤ comment_max
  pub authentication_form : Post → users.Rows → Option ℕ
  pub authentication_form_finds :
      (data_in : Post) (rows : users.Rows) (u : ℕ)
      → authentication_form data_in rows ≡ some u
      → (user : User) × (users.find u rows ≡ some user)
  pub creation_form : Post → users.Rows → Option (Text × Text)
  pub change_form : Post → Option (Text × Text × Text)
  pub password_form : User → Post → Option Text
  pub creation_form_validated :
      (data_in : Post) (rows : users.Rows) (username password : Text)
      → creation_form data_in rows ≡ some (username, password)
      → (v : Validator) → Memᴰ v auth_password_validators
      → Passes v password
  pub password_form_validated :
      (user : User) (data_in : Post) (password : Text)
      → password_form user data_in ≡ some password
      → (v : Validator) → Memᴰ v auth_password_validators
      → Passes v password
  pub login : ℕ → User → Session → Session
  pub logout : Session → Session
  pub update_session_auth_hash : ℕ → User → Session → Session
  pub login_unsaved : ℕ → User → Session → Session
  pub user_of : Session → (ℕ → Option User) → Option ℕ
  pub user_of_exists :
      (session : Session) (find : ℕ → Option User) (u : ℕ)
      → user_of session find ≡ some u
      → (user : User) × (find u ≡ some user)
  pub user_of-login :
      (session : Session) (find : ℕ → Option User) (u : ℕ) (user : User)
      → find u ≡ some user
      → user_of (login u user session) find ≡ some u
  pub user_of-login_unsaved :
      (session : Session) (find : ℕ → Option User) (u : ℕ) (user : User)
      → user_of session find ≡ none
      → user_of (login_unsaved u user session) find ≡ none
  pub user_of-logout :
      (session : Session) (find : ℕ → Option User) → user_of (logout session) find ≡ none
  pub user_of-update_session_auth_hash :
      (session : Session) (before after : ℕ → Option User) (u : ℕ) (user : User)
      → user_of session before ≡ some u
      → after u ≡ some user
      → user_of (update_session_auth_hash u user session) after ≡ some u

module _ (dj : Backend) where
  open dj use {Post, Session, users, articles, comments, user_of}

  -- The database and the visitor's session.
  pub record Site : Type 0 where
    pub user_rows : users.Rows
    pub article_rows : articles.Rows
    pub comment_rows : comments.Rows
    pub session : Session

  -- What the views read of a request: its method, `request.POST` and `request.GET.get('next')`.
  pub record Request : Type 0 where
    pub method : Method
    pub post_data : Post
    pub next : Option Text

  -- `request.user`: the user of the session, or no one.
  unfoldable pub request_user : Site → Option ℕ
  request_user site = user_of site.session (λ u. users.find u site.user_rows)

  -- `on_delete=models.CASCADE` of `Comment.article`.
  unfoldable pub delete_article : ℕ → Site → Site
  delete_article pk site = record site {
    article_rows = articles.remove (λ k a. k == pk) site.article_rows;
    comment_rows = comments.remove (λ k c. c.article == pk) site.comment_rows;
  }

  abbrev pub is_by : ℕ → Option Article → Bool
  is_by u none = false
  is_by u (some a) = a.user == u

  -- `on_delete=models.CASCADE` of `Article.user`, and of `Comment.article` for those articles.
  unfoldable pub delete_user : ℕ → Site → Site
  delete_user u site = record site {
    user_rows = users.remove (λ k r. k == u) site.user_rows;
    article_rows = articles.remove (λ k a. a.user == u) site.article_rows;
    comment_rows =
        comments.remove (λ k c. is_by u (articles.find c.article site.article_rows))
          site.comment_rows;
  }

-- What is shown: the template with its context.
pub data Page : Type 0 where
  article_index : List (ℕ × Article) → Page
  article_create : Page
  article_detail : ℕ → Article → List (ℕ × Comment) → Page
  article_update : ℕ → Article → Page
  account_login account_signup account_update account_password : Page

-- Where a redirect goes: a named URL, or the text of `next`.
pub data Target : Type 0 where
  index : Target
  detail : ℕ → Target
  login_page : Target
  given : Text → Target

abbrev pub Deco : Backend → Type 0
Deco dj = Decorators (Site dj) Page Target
