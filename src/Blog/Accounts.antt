-- ===== src/Blog/Accounts.antt =====
-- accounts/views.py.
use til.Prelude.{ℕ, Option, none, some, [], ◌∷◌, if◌then◌else◌}
use mathlib.Core.Option
use til.Django.{get, post, same_method, page, redirect, server_error}
use til.Django.{Text}
use til.Blog.Models.{
  User, Backend, Site, Request, request_user, delete_user, account_login, account_signup,
  account_update, account_password, Target, index, given, Deco,
}
use til.Blog.Articles.{is_authenticated, Answer}

module _ (dj : Backend) (deco : Deco dj) where
  open dj use {
    Post, Session, users, resolve_url, authentication_form, creation_form, change_form,
    password_form, login, login_unsaved, logout, update_session_auth_hash,
  }
  open deco use {require_http_methods, login_required}

  -- `request.GET.get('next') or 'articles:index'`, and where `redirect` goes then.
  unfoldable pub after_login : Option Text → Option Target
  after_login none = some index
  after_login (some []) = some index
  after_login (some (c ∷ rest)) = Option.map given (resolve_url (c ∷ rest))

  -- `auth_login(request, user)`
  unfoldable pub log_in : (ℕ → User → Session → Session) → ℕ → Option User → Site dj → Site dj
  log_in save u none site = site
  log_in save u (some user) site = record site { session = save u user site.session }

  -- `redirect` comes after `auth_login`, and may raise.
  unfoldable pub log_in_to : Option Target → ℕ → Option User → Site dj → Answer dj deco
  unfolding log_in
  log_in_to none u user site = (server_error, log_in login_unsaved u user site)
  log_in_to (some target) u user site = (redirect target, log_in login u user site)

  unfoldable pub log_in_as : Option ℕ → Request dj → Site dj → Answer dj deco
  unfolding log_in_to after_login
  log_in_as none r site = (page account_login, site)
  log_in_as (some u) r site = log_in_to (after_login r.next) u (users.find u site.user_rows) site

  unfoldable pub login_body : Request dj → Site dj → Answer dj deco
  unfolding log_in_as is_authenticated
  login_body r site =
      if is_authenticated (request_user dj site)
      then (redirect index, site)
      else if same_method r.method post
      then log_in_as (authentication_form r.post_data site.user_rows) r site
      else (page account_login, site)

  unfoldable pub login_view : Request dj → Site dj → Answer dj deco
  unfolding login_body
  login_view r = require_http_methods (get ∷ post ∷ []) r.method (login_body r)

  unfoldable pub logout_body : Site dj → Answer dj deco
  unfolding is_authenticated
  logout_body site =
      if is_authenticated (request_user dj site)
      then (redirect index, record site { session = logout site.session })
      else (redirect index, site)

  unfoldable pub logout_view : Request dj → Site dj → Answer dj deco
  unfolding logout_body
  logout_view r = require_http_methods (post ∷ []) r.method logout_body

  -- `form.save()`, then `auth_login(request, user)`.
  unfoldable pub sign_up : Option (Text × Text) → Site dj → Answer dj deco
  sign_up none site = (page account_signup, site)
  sign_up (some (username, password)) site =
      let user : User = record {
        username = username;
        password = password;
        email = [];
        first_name = [];
        last_name = [];
      } in
      let (u, rows) = users.insert user site.user_rows in
      (redirect index, record site { user_rows = rows; session = login u user site.session })

  unfoldable pub signup_body : Request dj → Site dj → Answer dj deco
  unfolding sign_up
  signup_body r site =
      if same_method r.method post
      then sign_up (creation_form r.post_data site.user_rows) site
      else (page account_signup, site)

  unfoldable pub signup : Request dj → Site dj → Answer dj deco
  unfolding signup_body
  signup r = require_http_methods (get ∷ post ∷ []) r.method (signup_body r)

  -- `request.user.delete()`, then `auth_logout(request)`.
  unfoldable pub delete_as : Option ℕ → Site dj → Answer dj deco
  unfolding delete_user
  delete_as none site = (redirect index, site)
  delete_as (some u) site =
      (redirect index, record (delete_user dj u site) { session = logout site.session })

  unfoldable pub delete_account_body : Site dj → Answer dj deco
  unfolding delete_as
  delete_account_body site = delete_as (request_user dj site) site

  unfoldable pub delete_account : Request dj → Site dj → Answer dj deco
  unfolding delete_account_body
  delete_account r = require_http_methods (post ∷ []) r.method delete_account_body

  -- The fields of CustomUserChangeForm: email, first_name and last_name.
  unfoldable pub save_profile :
      Option (Text × Text × Text) → ℕ → Option User → Site dj → Answer dj deco
  save_profile none u user site = (page account_update, site)
  save_profile (some form) u none site = (page account_update, site)
  save_profile (some (email, first_name, last_name)) u (some user) site =
      let changed = record user { email = email; first_name = first_name; last_name = last_name } in
      (redirect index, record site { user_rows = users.update u changed site.user_rows })

  unfoldable pub update_as : Request dj → Option ℕ → Site dj → Answer dj deco
  unfolding save_profile
  update_as r none site = (page account_update, site)
  update_as r (some u) site =
      if same_method r.method post
      then save_profile (change_form r.post_data) u (users.find u site.user_rows) site
      else (page account_update, site)

  unfoldable pub update_account : Request dj → Site dj → Answer dj deco
  unfolding update_as is_authenticated
  update_account r site =
      login_required (is_authenticated (request_user dj site))
        (require_http_methods (get ∷ post ∷ []) r.method (λ s. update_as r (request_user dj s) s))
        site

  -- `form.save()`, then `update_session_auth_hash(request, form.user)`.
  unfoldable pub save_password : ℕ → User → Option Text → Site dj → Answer dj deco
  save_password u user none site = (page account_password, site)
  save_password u user (some password) site =
      let changed = record user { password = password } in
      (
        redirect index,
        record site {
          user_rows = users.update u changed site.user_rows;
          session = update_session_auth_hash u changed site.session;
        },
      )

  unfoldable pub password_of : Request dj → ℕ → Option User → Site dj → Answer dj deco
  unfolding save_password
  password_of r u none site = (page account_password, site)
  password_of r u (some user) site =
      if same_method r.method post
      then save_password u user (password_form user r.post_data) site
      else (page account_password, site)

  unfoldable pub password_as : Request dj → Option ℕ → Site dj → Answer dj deco
  unfolding password_of
  password_as r none site = (page account_password, site)
  password_as r (some u) site = password_of r u (users.find u site.user_rows) site

  unfoldable pub change_password : Request dj → Site dj → Answer dj deco
  unfolding password_as is_authenticated
  change_password r site =
      login_required (is_authenticated (request_user dj site))
        (require_http_methods (get ∷ post ∷ []) r.method (λ s. password_as r (request_user dj s) s))
        site
