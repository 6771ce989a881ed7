-- ===== src/Blog/Urls/Guarded.antt =====
-- What a request by a safe method may change.
use til.Prelude.{ℕ, ◌≡◌, refl, sym, ◌∙◌, false, Option, none, some, [], ◌∷◌, Bool-cases, inl, inr}
use mathlib.Core.Bool.{false≢true}
use til.Django.{
  Method, get, head, post, put, delete as delete_method, options, trace, other, is_in, same_method,
}
use til.Django.Decorated.{methods_ind, login_ind}
use til.Blog.Models.{User, Article, Backend, Site, Request, request_user, Deco}
use til.Blog.Articles.{
  Answer, is_authenticated, index_view, create_body, create, detail_found, detail_view, delete,
  update_found, update_body, update, comment_create, comment_delete, is_user,
}
use til.Blog.Accounts.{
  login_body, login_view, logout_view, signup_body, signup, delete_account, update_as,
  update_account, password_of, password_as, change_password,
}
use til.Blog.Urls.{
  Route, articles_index, articles_create, articles_detail, articles_delete, articles_update,
  articles_comment_create, articles_comment_delete, accounts_login, accounts_logout,
  accounts_signup, accounts_delete, accounts_update, accounts_change_password, serve,
}

abbrev pub IsSafe : Method → Type 0
IsSafe get = Unit
IsSafe head = Unit
IsSafe options = Unit
IsSafe trace = Unit
IsSafe _ = ⊥

safe-not-post :
    (m : Method) → IsSafe m → (same_method m post ≡ false) × (is_in m (post ∷ []) ≡ false)
unfolding is_in same_method
safe-not-post get s = (refl, refl)
safe-not-post head s = (refl, refl)
safe-not-post post s = absurd s
safe-not-post put s = absurd s
safe-not-post delete_method s = absurd s
safe-not-post options s = (refl, refl)
safe-not-post trace s = (refl, refl)
safe-not-post other s = absurd s

module _ (dj : Backend) (deco : Deco dj) (r : Request dj) (safe : IsSafe r.method)
    (site : Site dj) where
  abbrev Same : Answer dj deco → Type 0
  Same answer = answer.1 ≡ site

  post_only-Same :
      (view : Site dj → Answer dj deco)
      → Same (deco.require_http_methods (post ∷ []) r.method view site)
  post_only-Same view =
      methods_ind deco Same _ r.method view site refl
        λ posted. absurd (false≢true (sym (safe-not-post r.method safe).1 ∙ posted))

  abbrev not_posted : same_method r.method post ≡ false
  not_posted = (safe-not-post r.method safe).0

  create-Same : Same (create dj deco r site)
  unfolding create create_body
  create-Same =
      login_ind deco Same _ _ site refl
        λ _. methods_ind deco Same _ r.method _ site refl λ _. rw not_posted refl

  found-Same : (pk : ℕ) (o : Option Article) → Same (detail_found dj deco pk o site)
  unfolding detail_found
  found-Same pk none = refl
  found-Same pk (some a) = refl

  update_found-Same : (pk : ℕ) (o : Option Article) → Same (update_found dj deco r pk o site)
  unfolding update_found
  update_found-Same pk none = refl
  update_found-Same pk (some a) =
      elim (Bool-cases (is_user dj deco a.user (request_user dj site))) [
        | inl owner ↦ rw owner (rw not_posted refl)
        | inr stranger ↦ rw stranger refl
      ]

  login_body-Same : Same (login_body dj deco r site)
  unfolding login_body
  login_body-Same = elim (Bool-cases (is_authenticated (request_user dj site))) [
    | inl known ↦ rw known refl
    | inr unknown ↦ rw unknown (rw not_posted refl)
  ]

  update_as-Same : (o : Option ℕ) → Same (update_as dj deco r o site)
  unfolding update_as
  update_as-Same none = refl
  update_as-Same (some u) = rw not_posted refl

  password_of-Same : (u : ℕ) (o : Option User) → Same (password_of dj deco r u o site)
  unfolding password_of
  password_of-Same u none = refl
  password_of-Same u (some user) = rw not_posted refl

  password_as-Same : (o : Option ℕ) → Same (password_as dj deco r o site)
  unfolding password_as
  password_as-Same none = refl
  password_as-Same (some u) = password_of-Same u _

  serve-Same : (route : Route) → Same (serve dj deco route r site)
  unfolding serve index_view detail_view update update_body login_view signup signup_body
      update_account change_password delete comment_create comment_delete logout_view delete_account
  serve-Same articles_index = methods_ind deco Same _ r.method _ site refl (λ _. refl)
  serve-Same articles_create = create-Same
  serve-Same (articles_detail pk) =
      methods_ind deco Same _ r.method _ site refl (λ _. found-Same pk _)
  serve-Same (articles_delete pk) = post_only-Same _
  serve-Same (articles_update pk) =
      login_ind deco Same _ _ site refl
        λ _. methods_ind deco Same _ r.method _ site refl λ _. update_found-Same pk _
  serve-Same (articles_comment_create pk) = post_only-Same _
  serve-Same (articles_comment_delete pk) = post_only-Same _
  serve-Same accounts_login = methods_ind deco Same _ r.method _ site refl (λ _. login_body-Same)
  serve-Same accounts_logout = post_only-Same _
  serve-Same accounts_signup = methods_ind deco Same _ r.method _ site refl λ _. rw not_posted refl
  serve-Same accounts_delete = post_only-Same _
  serve-Same accounts_update =
      login_ind deco Same _ _ site refl
        λ _. methods_ind deco Same _ r.method _ site refl λ _. update_as-Same _
  serve-Same accounts_change_password =
      login_ind deco Same _ _ site refl
        λ _. methods_ind deco Same _ r.method _ site refl λ _. password_as-Same _

-- A view of the articles or the accounts that is asked by a safe method, by anyone, changes neither the
-- database nor the session.
pub serve-safe :
    (dj : Backend) (deco : Deco dj) (route : Route) (r : Request dj) (site : Site dj)
    → IsSafe r.method
    → (serve dj deco route r site).1 ≡ site
serve-safe dj deco route r site safe = serve-Same dj deco r safe site route
