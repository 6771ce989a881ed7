-- ===== src/Blog/Urls/Login.antt =====
-- Who is logged in after a request to the accounts.
use til.Prelude.{ℕ, ◌≡◌, refl, ap, ◌∙◌, ◌<◌, ◌⊎◌, length, Option, none, some, [], ◌∷◌, arith}
use mathlib.Core.Option
use til.Django.{get, post, is_in, same_method, Response, redirect, server_error}
use til.Django.Tables.{insert_self, update_self}
use til.Django.{Text}
use til.Blog.Models.{User, Backend, Site, Request, request_user, Deco, Page, Target, index, given}
use til.Blog.Articles.{is_authenticated}
use til.Blog.Accounts.{
  sign_up, signup_body, signup, save_password, password_of, password_as, change_password,
}

module _ (dj : Backend) (deco : Deco dj) where
  open dj use {
    Post, resolve_url, users, articles, comments, authentication_form, creation_form, password_form,
  }

  abbrev posts : Post → Option Text → Request dj
  posts body next = record { method = post; post_data = body; next = next }

  -- The answer to valid credentials, and who is logged in then.
  abbrev pub login_answer : Option Target → Response Page Target
  login_answer none = server_error
  login_answer (some target) = redirect target

  abbrev pub login_user : ℕ → Option Target → Option ℕ
  login_user u none = none
  login_user u (some target) = some u

  -- Where a login leads: to the list of articles if `next` is missing or empty, and else to the address
  -- that Django finds for `next`, if there is one.
  abbrev pub IsDestination : Option Text → Option Target → Type 0
  IsDestination next target =
      (((next ≡ none) ⊎ (next ≡ some [])) × (target ≡ some index))
      ⊎ ((to : Text) × (next ≡ some to)
          × (0 < length to)
          × (target ≡ Option.map given (resolve_url to)))

  -- A POST of a valid form signs the visitor up under a key that was free, and logs them in as that
  -- user.
  signup-valid :
      (body : Post) (next : Option Text) (site : Site dj) (username password : Text)
      → creation_form body site.user_rows ≡ some (username, password)
      → (site' : Site dj) × (u : ℕ) × (signup dj deco (posts body next) site
          ≡ (redirect index, site'))
        × (users.find u site.user_rows ≡ none)
        × (request_user dj site' ≡ some u)
  unfolding signup signup_body sign_up request_user is_in same_method
  signup-valid body next site username password valid =
      let user : User = record {
        username = username;
        password = password;
        email = [];
        first_name = [];
        last_name = [];
      } in
      let (u, rows) = users.insert user site.user_rows in
      (
        record site { user_rows = rows; session = dj.login u user site.session },
        u,
        deco.method_in _ post _ site refl ∙ ap (λ o. sign_up dj deco o site) valid,
        users.insert_fresh user site.user_rows,
        dj.user_of-login site.session _ u user (insert_self users user site.user_rows),
      )

  change_password_body :
      (r : Request dj) (site : Site dj) (u : ℕ) (user : User) (password : Text)
      → r.method ≡ post
      → request_user dj site ≡ some u
      → users.find u site.user_rows ≡ some user
      → password_form user r.post_data ≡ some password
      → password_as dj deco r (request_user dj site) site
        ≡ save_password dj deco u user (some password) site
  unfolding password_as password_of same_method
  change_password_body r site u user password posted known found valid = ground arith

  -- A user who posts a valid form for a new password has it stored, and stays logged in.
  change_password-valid :
      (body : Post) (next : Option Text) (site : Site dj) (u : ℕ) (user : User) (password : Text)
      → request_user dj site ≡ some u
      → users.find u site.user_rows ≡ some user
      → password_form user body ≡ some password
      → (site' : Site dj) × (change_password dj deco (posts body next) site
          ≡ (redirect index, site'))
        × (users.find u site'.user_rows ≡ some (record user { password = password }))
        × (request_user dj site' ≡ some u)
  unfolding change_password save_password is_in same_method request_user is_authenticated
  change_password-valid body next site u user password known found valid =
      let changed : User = record user { password = password } in
      let r = posts body next in
      let view = λ (s : Site dj). password_as dj deco r (request_user dj s) s in
      let gated = λ (s : Site dj). deco.require_http_methods (get ∷ post ∷ []) post view s in
      (
        record site {
          user_rows = users.update u changed site.user_rows;
          session = dj.update_session_auth_hash u changed site.session;
        },
        ap (λ o. deco.login_required (is_authenticated o) gated site) known
            ∙ deco.logged_in gated site
            ∙ deco.method_in _ post view site refl
            ∙ change_password_body r site u user password refl known found valid,
        update_self users u changed site.user_rows,
        dj.user_of-update_session_auth_hash site.session _ _ u changed known
            (update_self users u changed site.user_rows),
      )
