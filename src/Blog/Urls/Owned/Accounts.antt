-- ===== src/Blog/Urls/Owned/Accounts.antt =====
-- What the views of accounts/views.py leave of an article of another user.
use mathlib.Core.Option.{some-injective}
use til.Prelude.{ℕ, ◌≡◌, ◌≢◌, sym, ◌∙◌, Option, none, some, Bool-cases, inl, inr}
use til.Django.{post, same_method, Response, redirect, server_error}
use til.Django.Decorated.{methods_ind}
use til.Django.Tables.{remove_cases}
use til.Django.{Text}
use til.Blog.Models.{
  User, Article, Backend, Site, Request, request_user, delete_user, Deco, Page, Target,
}
use til.Blog.Articles.{Answer, is_authenticated}
use til.Blog.Accounts.{
  after_login, log_in, log_in_to, log_in_as, login_body, login_view, logout_body, logout_view,
  sign_up, signup_body, signup, delete_as, delete_account_body, delete_account, save_profile,
  update_as, save_password, password_of, password_as,
}

module _ (dj : Backend) (deco : Deco dj) (r : Request dj) (site : Site dj) (k : ℕ) (a : Article)
    (found : dj.articles.find k site.article_rows ≡ some a)
    (stranger : request_user dj site ≢ some a.user) where
  open dj use {articles}

  -- If the article is still there, it is as it was.
  abbrev pub Intact : Answer dj deco → Type 0
  Intact answer = (a' : Article) → articles.find k answer.1.article_rows ≡ some a' → a' ≡ a

  same : (a' : Article) → articles.find k site.article_rows ≡ some a' → a' ≡ a
  same a' e = some-injective _ _ (sym e ∙ found)

  log_in-Intact :
      (answer : Response Page Target) (save : ℕ → User → dj.Session → dj.Session) (u : ℕ)
      (o : Option User)
      → Intact (answer, log_in dj deco save u o site)
  unfolding log_in
  log_in-Intact answer save u none = same
  log_in-Intact answer save u (some user) = same

  log_in_to-Intact :
      (t : Option Target) (u : ℕ) (o : Option User) → Intact (log_in_to dj deco t u o site)
  unfolding log_in_to
  log_in_to-Intact none u o = log_in-Intact server_error dj.login_unsaved u o
  log_in_to-Intact (some t) u o = log_in-Intact (redirect t) dj.login u o

  log_in_as-Intact : (o : Option ℕ) → Intact (log_in_as dj deco o r site)
  unfolding log_in_as
  log_in_as-Intact none = same
  log_in_as-Intact (some u) = log_in_to-Intact (after_login dj deco r.next) u _

  pub login-Intact : Intact (login_view dj deco r site)
  unfolding login_view login_body
  login-Intact = methods_ind deco Intact _ r.method _ site same λ _.
      elim (Bool-cases (is_authenticated (request_user dj site))) [
        | inl known ↦ rw known same
        | inr unknown ↦ rw unknown (elim (Bool-cases (same_method r.method post)) [
          | inl posted ↦ rw posted (log_in_as-Intact _)
          | inr other ↦ rw other same
        ])
      ]

  pub logout-Intact : Intact (logout_view dj deco r site)
  unfolding logout_view logout_body
  logout-Intact = methods_ind deco Intact _ r.method _ site same λ _.
      elim (Bool-cases (is_authenticated (request_user dj site))) [
        | inl known ↦ rw known same
        | inr unknown ↦ rw unknown same
      ]

  sign_up-Intact : (form : Option (Text × Text)) → Intact (sign_up dj deco form site)
  unfolding sign_up
  sign_up-Intact none = same
  sign_up-Intact (some (username, password)) = same

  pub signup-Intact : Intact (signup dj deco r site)
  unfolding signup signup_body
  signup-Intact = methods_ind deco Intact _ r.method _ site same λ _.
      elim (Bool-cases (same_method r.method post)) [
        | inl posted ↦ rw posted (sign_up-Intact _)
        | inr other ↦ rw other same
      ]

  delete_as-Intact : (o : Option ℕ) → Intact (delete_as dj deco o site)
  unfolding delete_as delete_user
  delete_as-Intact none = same
  delete_as-Intact (some u) = λ a' e. same a' (remove_cases articles k _ a' site.article_rows e).0

  pub delete_account-Intact : Intact (delete_account dj deco r site)
  unfolding delete_account delete_account_body
  delete_account-Intact = methods_ind deco Intact _ r.method _ site same (λ _. delete_as-Intact _)

  save_profile-Intact :
      (form : Option (Text × Text × Text)) (u : ℕ) (o : Option User)
      → Intact (save_profile dj deco form u o site)
  unfolding save_profile
  save_profile-Intact none u o = same
  save_profile-Intact (some form) u none = same
  save_profile-Intact (some (email, first_name, last_name)) u (some user) = same

  pub update_as-Intact : (o : Option ℕ) → Intact (update_as dj deco r o site)
  unfolding update_as
  update_as-Intact none = same
  update_as-Intact (some u) = elim (Bool-cases (same_method r.method post)) [
    | inl posted ↦ rw posted (save_profile-Intact _ u _)
    | inr other ↦ rw other same
  ]

  save_password-Intact :
      (u : ℕ) (user : User) (form : Option Text) → Intact (save_password dj deco u user form site)
  unfolding save_password
  save_password-Intact u user none = same
  save_password-Intact u user (some password) = same

  password_of-Intact : (u : ℕ) (o : Option User) → Intact (password_of dj deco r u o site)
  unfolding password_of
  password_of-Intact u none = same
  password_of-Intact u (some user) = elim (Bool-cases (same_method r.method post)) [
    | inl posted ↦ rw posted (save_password-Intact u user _)
    | inr other ↦ rw other same
  ]

  pub password_as-Intact : (o : Option ℕ) → Intact (password_as dj deco r o site)
  unfolding password_as
  password_as-Intact none = same
  password_as-Intact (some u) = password_of-Intact u _
