-- ===== src/Todo/Errors.antt =====
-- What 2022/DB/1006/03_db answers while `articles:index` names no URL.
use mathlib.Core.Option.{none-ne-some}
use til.Prelude.{
  ℕ, ◌≡◌, refl, sym, ap, ◌∙◌, true, Option, none, some, [], ◌∷◌, arith, Option-cases, inl, inr,
}
use til.Django.{
  Text, Method, get, head, post, put, delete, options, trace, other, to_login, is_in, same_method,
  page, redirect, not_found, not_allowed, server_error, Decorators,
}
use til.Django.Tables.{insert_self}
use til.Django.Decorated.{methods_ind}
use til.Todo.{
  User, Backend, Site, Request, Route, signup_url, login_url, Page, request_user, Answer, articles,
  index, articles_index, redirect_to, after_login, log_in_to, log_in_found, log_in_as, login_body,
  login_view, sign_up, signup_body, signup, serve, is_authenticated,
}

same_post : (m : Method) → same_method m post ≡ true → m ≡ post
unfolding same_method
same_post post e = refl
same_post get e = ground arith
same_post head e = ground arith
same_post put e = ground arith
same_post delete e = ground arith
same_post options e = ground arith
same_post trace e = ground arith
same_post other e = ground arith

module _ (dj : Backend) (deco : Decorators (Site dj) Page Text) where
  open dj use {
    users, resolve_url, creation_form, authentication_form, login, login_unsaved, user_of,
  }

  signup-posted :
      (r : Request dj) (site : Site dj)
      → r.method ≡ post
      → signup dj deco r site ≡ sign_up dj deco (creation_form r.post_data site.user_rows) site
  unfolding signup signup_body is_in same_method
  signup-posted r site m =
      let posted : is_in r.method (get ∷ post ∷ []) ≡ true = rw m refl in
      deco.method_in (get ∷ post ∷ []) r.method (signup_body dj deco r) site posted ∙ rw m refl

  index-none : resolve_url articles_index ≡ none
  index-none = dj.resolve_url_unknown articles index refl refl refl

  -- A visitor who is not logged in posts a valid form for a new user. The user is stored under a key
  -- that was free, with the name and the password of the form, but the answer is a server error, and
  -- the visitor is still not logged in.
  pub signup-server_error :
      (r : Request dj) (site : Site dj) (username password : Text)
      → r.method ≡ post
      → request_user dj site ≡ none
      → creation_form r.post_data site.user_rows ≡ some (username, password)
      → (after : Site dj) × (u : ℕ) × (serve dj deco signup_url r site ≡ (server_error, after))
        × (users.find u site.user_rows ≡ none)
        × (users.find u after.user_rows
            ≡ some (record { username = username; password = password }))
        × (request_user dj after ≡ none)
  unfolding serve signup signup_body sign_up log_in_to redirect_to request_user is_in same_method
  signup-server_error r site username password m q f =
      let user : User = record { username = username; password = password } in
      let (u, rows) = users.insert user site.user_rows in
      (
        record site { user_rows = rows; session = login_unsaved u user site.session },
        u,
        signup-posted r site m
            ∙ ap (λ o. sign_up dj deco o site) f
            ∙ ap (λ to. log_in_to dj deco to u user (record site { user_rows = rows })) index-none,
        users.insert_fresh user site.user_rows,
        insert_self users user site.user_rows,
        dj.user_of-login_unsaved site.session _ _ u user q,
      )

  abbrev pub IsLogin : Request dj → Site dj → Text → Site dj → Type 0
  IsLogin r site address after =
      (r.method ≡ post)
      × (request_user dj site ≡ none)
      × (to : Text) × (u : ℕ) × (r.next ≡ some to)
      × (resolve_url to ≡ some address)
      × (authentication_form r.post_data site.user_rows ≡ some u)
      × (request_user dj after ≡ some u)

  address_of : Answer dj → Option Text
  address_of (redirect to, site) = some to
  address_of (page p, site) = none
  address_of (to_login, site) = none
  address_of (not_found, site) = none
  address_of (not_allowed, site) = none
  address_of (server_error, site) = none

  saved_at :
      (o : Option Text) (u : ℕ) (user : User) (site after : Site dj) (address : Text)
      → log_in_to dj deco o u user site ≡ (redirect address, after)
      → (o ≡ some address) × (record site { session = login u user site.session } ≡ after)
  unfolding log_in_to redirect_to address_of
  saved_at none u user site after address e = ground arith
  saved_at (some to) u user site after address e = (ap address_of e, ap (λ p. p.1) e)

  next-redirect :
      (next : Option Text) (u : ℕ) (user : User) (site after : Site dj) (address : Text)
      → log_in_to dj deco (resolve_url (after_login dj deco next)) u user site
        ≡ (redirect address, after)
      → (to : Text) × (next ≡ some to)
        × (resolve_url to ≡ some address)
        × (record site { session = login u user site.session } ≡ after)
  unfolding after_login
  next-redirect none u user site after address e =
      absurd (none-ne-some _ (sym index-none ∙ (saved_at _ u user site after address e).0))
  next-redirect (some []) u user site after address e =
      absurd (none-ne-some _ (sym index-none ∙ (saved_at _ u user site after address e).0))
  next-redirect (some (c ∷ rest)) u user site after address e =
      let (q, s) = saved_at _ u user site after address e in (c ∷ rest, refl, q, s)

  found-redirect :
      (r : Request dj) (site after : Site dj) (address : Text) (u : ℕ) (user : User)
      → users.find u site.user_rows ≡ some user
      → log_in_as dj deco (some u) r site ≡ (redirect address, after)
      → (to : Text) × (r.next ≡ some to)
        × (resolve_url to ≡ some address)
        × (request_user dj after ≡ some u)
  unfolding log_in_as log_in_found request_user
  found-redirect r site after address u user found e =
      let start : log_in_found dj deco r u (users.find u site.user_rows) site
          ≡ log_in_to dj deco (resolve_url (after_login dj deco r.next)) u user site =
        rw found refl in
      let (to, n, q, s) = next-redirect r.next u user site after address (sym start ∙ e) in
      (to, n, q, ap (request_user dj) (sym s) ∙ dj.user_of-login site.session _ u user found)

  login_body-redirect :
      (r : Request dj) (site after : Site dj) (address : Text)
      → login_body dj deco r site ≡ (redirect address, after)
      → IsLogin r site address after
  unfolding login_body redirect_to is_authenticated log_in_as same_method
  login_body-redirect r site after address e = elim (Option-cases (request_user dj site)) [
    | inr (u, q) ↦ ground (arith, index-none)
    | inl q ↦ elim (Option-cases (authentication_form r.post_data site.user_rows)) [
      | inl wrong ↦ ground arith
      | inr (u, right) ↦
          let posted : r.method ≡ post = ground (arith, same_post r.method) in
          let ran : login_body dj deco r site ≡ log_in_as dj deco (some u) r site =
            rw (q, posted, right) refl in
          let (user, found) = dj.authentication_form_finds r.post_data site.user_rows u right in
          let (to, n, a, l) = found-redirect r site after address u user found (sym ran ∙ e) in
          (posted, q, to, u, n, a, right, l)
    ]
  ]

  signup_body-redirect :
      (r : Request dj) (site after : Site dj) (address : Text)
      → ¬ (signup_body dj deco r site ≡ (redirect address, after))
  unfolding signup_body sign_up log_in_to redirect_to
  signup_body-redirect r site after address e = ground (arith, index-none)

  -- A redirect is answered to nothing but a POST to the login page by a visitor who was not logged
  -- in, with valid credentials and a `next` that is an address or names one: it goes to that address,
  -- and the visitor is then logged in as the user of the credentials.
  pub serve-redirect :
      (route : Route) (r : Request dj) (site : Site dj) (address : Text) (after : Site dj)
      → serve dj deco route r site ≡ (redirect address, after)
      → (route ≡ login_url) × IsLogin r site address after
  unfolding serve login_view signup
  serve-redirect signup_url r site address after e = absurd (
      methods_ind deco (λ p. ¬ (p ≡ (redirect address, after))) (get ∷ post ∷ []) r.method
        (signup_body dj deco r) site (λ q. ground arith)
        (λ _. signup_body-redirect r site after address) e)
  serve-redirect login_url r site address after e = (
    refl,
    methods_ind deco (λ p. p ≡ (redirect address, after) → IsLogin r site address after)
        (get ∷ post ∷ []) r.method (login_body dj deco r) site (λ q. ground arith)
        (λ _. login_body-redirect r site after address) e,
  )
