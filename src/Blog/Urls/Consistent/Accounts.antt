-- ===== src/Blog/Urls/Consistent/Accounts.antt =====
-- The requests of the blog and its database invariant: accounts/views.py.
use mathlib.Core.List.{Memᴰ}
use til.Prelude.{ℕ, ◌≡◌, refl, Option, none, some, Bool-cases, inl, inr}
use til.Django.{post, same_method}
use til.Django.Decorated.{methods_ind, login_ind}
use til.Django.{Text}
use til.Settings.{minimum_length_validator, numeric_password_validator}
use til.Settings.Blog.{auth_password_validators}
use til.Blog.Models.{User, Backend, Site, Request, request_user, delete_user, Deco, Target}
use til.Blog.Changes.{
  IsConsistent, IsStrong, session-IsConsistent, delete_user-IsConsistent, add_user-IsConsistent,
  edit_user-IsConsistent,
}
use til.Blog.Articles.{Answer, is_authenticated}
use til.Blog.Accounts.{
  after_login, log_in, log_in_to, log_in_as, login_body, login_view, logout_body, logout_view,
  sign_up, signup_body, signup, delete_as, delete_account_body, delete_account, save_profile,
  update_as, update_account, save_password, password_of, password_as, change_password,
}

listed_length : Memᴰ minimum_length_validator auth_password_validators
listed_length = Memᴰ.tail (Memᴰ.head refl)

listed_digits : Memᴰ numeric_password_validator auth_password_validators
listed_digits = Memᴰ.tail (Memᴰ.tail (Memᴰ.tail (Memᴰ.head refl)))

module _ (dj : Backend) (deco : Deco dj) where
  open dj use {
    Post, Session, users, articles, comments, article_form, comment_form, creation_form,
    password_form,
  }

  abbrev pub Keeps : Site dj → Answer dj deco → Type 0
  Keeps site answer = IsConsistent dj answer.1

  -- The validators of the settings are there.
  creation_form-IsStrong :
      (data_in : Post) (rows : users.Rows) (username password : Text)
      → creation_form data_in rows ≡ some (username, password)
      → IsStrong password
  creation_form-IsStrong data_in rows username password e =
      let passes = dj.creation_form_validated data_in rows username password e in
      (
        passes minimum_length_validator listed_length,
        passes numeric_password_validator listed_digits,
      )

  password_form-IsStrong :
      (user : User) (data_in : Post) (password : Text)
      → password_form user data_in ≡ some password
      → IsStrong password
  password_form-IsStrong user data_in password e =
      let passes = dj.password_form_validated user data_in password e in
      (
        passes minimum_length_validator listed_length,
        passes numeric_password_validator listed_digits,
      )

  module _ (site : Site dj) (h : IsConsistent dj site) where
    log_in-Keeps :
        (save : ℕ → User → Session → Session) (u : ℕ) (o : Option User)
        → IsConsistent dj (log_in dj deco save u o site)
    unfolding log_in
    log_in-Keeps save u none = h
    log_in-Keeps save u (some user) = session-IsConsistent dj site h _

    log_in_to-Keeps :
        (t : Option Target) (u : ℕ) (o : Option User) → Keeps site (log_in_to dj deco t u o site)
    unfolding log_in_to
    log_in_to-Keeps none u o = log_in-Keeps dj.login_unsaved u o
    log_in_to-Keeps (some t) u o = log_in-Keeps dj.login u o

    log_in_as-Keeps : (o : Option ℕ) (r : Request dj) → Keeps site (log_in_as dj deco o r site)
    unfolding log_in_as
    log_in_as-Keeps none r = h
    log_in_as-Keeps (some u) r = log_in_to-Keeps (after_login dj deco r.next) u _

    pub login-Keeps : (r : Request dj) → Keeps site (login_view dj deco r site)
    unfolding login_view login_body
    login-Keeps r = methods_ind deco (Keeps site) _ r.method _ site h λ _.
        elim (Bool-cases (is_authenticated (request_user dj site))) [
          | inl known ↦ rw known h
          | inr unknown ↦ rw unknown (elim (Bool-cases (same_method r.method post)) [
            | inl posted ↦ rw posted (log_in_as-Keeps _ r)
            | inr other ↦ rw other h
          ])
        ]

    pub logout-Keeps : (r : Request dj) → Keeps site (logout_view dj deco r site)
    unfolding logout_view logout_body
    logout-Keeps r = methods_ind deco (Keeps site) _ r.method _ site h λ _.
        elim (Bool-cases (is_authenticated (request_user dj site))) [
          | inl known ↦ rw known (session-IsConsistent dj site h _)
          | inr unknown ↦ rw unknown h
        ]

    sign_up-Keeps :
        (form : Option (Text × Text))
        → ((username password : Text) → form ≡ some (username, password) → IsStrong password)
        → Keeps site (sign_up dj deco form site)
    unfolding sign_up
    sign_up-Keeps none strong = h
    sign_up-Keeps (some (username, password)) strong =
        session-IsConsistent dj _
          (add_user-IsConsistent dj site h _ (strong username password refl)) _

    pub signup-Keeps : (r : Request dj) → Keeps site (signup dj deco r site)
    unfolding signup signup_body
    signup-Keeps r = methods_ind deco (Keeps site) _ r.method _ site h λ _.
        elim (Bool-cases (same_method r.method post)) [
          | inl posted ↦ rw posted (sign_up-Keeps _ (creation_form-IsStrong r.post_data _))
          | inr other ↦ rw other h
        ]

    delete_as-Keeps : (o : Option ℕ) → Keeps site (delete_as dj deco o site)
    unfolding delete_as
    delete_as-Keeps none = h
    delete_as-Keeps (some u) =
        session-IsConsistent dj (delete_user dj u site) (delete_user-IsConsistent dj site h u) _

    pub delete_account-Keeps : (r : Request dj) → Keeps site (delete_account dj deco r site)
    unfolding delete_account delete_account_body
    delete_account-Keeps r =
        methods_ind deco (Keeps site) _ r.method _ site h (λ _. delete_as-Keeps _)

    save_profile-Keeps :
        (form : Option (Text × Text × Text)) (u : ℕ) (o : Option User)
        → users.find u site.user_rows ≡ o
        → Keeps site (save_profile dj deco form u o site)
    unfolding save_profile
    save_profile-Keeps none u o e = h
    save_profile-Keeps (some form) u none e = h
    save_profile-Keeps (some (email, first_name, last_name)) u (some user) e =
        edit_user-IsConsistent dj site h u _ (h.passwords u user e)

    update_as-Keeps : (r : Request dj) (o : Option ℕ) → Keeps site (update_as dj deco r o site)
    unfolding update_as
    update_as-Keeps r none = h
    update_as-Keeps r (some u) = elim (Bool-cases (same_method r.method post)) [
      | inl posted ↦ rw posted (save_profile-Keeps _ u _ refl)
      | inr other ↦ rw other h
    ]

    pub update_account-Keeps : (r : Request dj) → Keeps site (update_account dj deco r site)
    unfolding update_account
    update_account-Keeps r =
        login_ind deco (Keeps site) _ _ site h
          λ _. methods_ind deco (Keeps site) _ r.method _ site h λ _. update_as-Keeps r _

    save_password-Keeps :
        (u : ℕ) (user : User) (form : Option Text)
        → ((password : Text) → form ≡ some password → IsStrong password)
        → Keeps site (save_password dj deco u user form site)
    unfolding save_password
    save_password-Keeps u user none strong = h
    save_password-Keeps u user (some password) strong =
        session-IsConsistent dj _ (edit_user-IsConsistent dj site h u _ (strong password refl)) _

    password_of-Keeps :
        (r : Request dj) (u : ℕ) (o : Option User) → Keeps site (password_of dj deco r u o site)
    unfolding password_of
    password_of-Keeps r u none = h
    password_of-Keeps r u (some user) = elim (Bool-cases (same_method r.method post)) [
      | inl posted ↦
          rw posted (save_password-Keeps u user _ (password_form-IsStrong user r.post_data))
      | inr other ↦ rw other h
    ]

    password_as-Keeps : (r : Request dj) (o : Option ℕ) → Keeps site (password_as dj deco r o site)
    unfolding password_as
    password_as-Keeps r none = h
    password_as-Keeps r (some u) = password_of-Keeps r u _

    pub change_password-Keeps : (r : Request dj) → Keeps site (change_password dj deco r site)
    unfolding change_password
    change_password-Keeps r =
        login_ind deco (Keeps site) _ _ site h
          λ _. methods_ind deco (Keeps site) _ r.method _ site h λ _. password_as-Keeps r _
