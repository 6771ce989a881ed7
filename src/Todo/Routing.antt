-- ===== src/Todo/Routing.antt =====
-- accounts/urls.py, todos/urls.py and config/urls.py of 2022/DB/1006/03_db: the paths of the views.
use til.Prelude.{
  ◌≡◌, ◌↔◌, refl, ap, ◌∙◌, ◌⊎◌, inl, inr, Option, none, some, [], ◌∷◌, ◌++◌, arith, Bool, true,
  false, ◌||◌, sym, Bool-cases,
}
use til.Django.{Method, post, Response, Text, not_found, redirect, Decorators}
use til.Django.Urls.{
  codes, lit, Patterns, done, path, include, admin_site, Resolver, Served, admin_page, Finds,
}
use til.Django.Urls.Exact.{resolve-Finds, Finds-resolve, admin_page-ne-view, same_view}
use til.Settings.{AppendSlash, Incoming, Outcome, answered, Layers, arriving, admits, is_safe}
use til.Settings.Guarded.{todo, load-guarded}
use til.Settings.Todo.{middleware}
use til.Todo.{Backend, Site, Request, Answer, Page, Route, signup_url, login_url, serve}
use til.Todo.Errors.{IsLogin, serve-redirect}

-- todos/urls.py
abbrev pub todos_urlpatterns : {Admin : Type 0} → Patterns (Served Admin Route)
todos_urlpatterns = done

-- accounts/urls.py
abbrev pub accounts_urlpatterns : {Admin : Type 0} → Patterns (Served Admin Route)
accounts_urlpatterns =
    path (lit (codes "signup/") ∷ []) (inr signup_url)
      (path (lit (codes "login/") ∷ []) (inr login_url) done)

-- config/urls.py
abbrev pub urlpatterns : {Admin : Type 0} → (Text → Option Admin) → Patterns (Served Admin Route)
urlpatterns admin =
    admin_site (codes "admin/") (λ text. admin_page (admin text))
      (include (codes "todos/") todos_urlpatterns
        (include (codes "accounts/") accounts_urlpatterns done))

abbrev pub address : Route → Text
address signup_url = codes "accounts/signup/"
address login_url = codes "accounts/login/"

module _ (dj : Backend) (deco : Decorators (Site dj) Page Text) {Admin : Type 0}
    (django : Resolver (Served Admin Route)) (admin : Text → Option Admin)
    (admin_view : Admin → Request dj → Site dj → Answer dj) where
  -- A path that resolves to nothing is answered by a 404.
  unfoldable pub answer : Option (Served Admin Route) → Request dj → Site dj → Answer dj
  answer none r site = (not_found, site)
  answer (some (inl a)) r site = admin_view a r site
  answer (some (inr route)) r site = serve dj deco route r site

  -- The answer to a request for a path, given what the middleware lets through.
  unfoldable pub dispatch : Text → Request dj → Site dj → Answer dj
  unfolding answer
  dispatch text = answer (django.resolve (urlpatterns admin) text)

  abbrev pub Slashes : Type 0
  Slashes = AppendSlash (Served Admin Route) (λ text. django.resolve (urlpatterns admin) text)

  unfoldable pub handle :
      Text → Request dj → Incoming → Site dj → Outcome (Response Page Text) × Site dj
  unfolding dispatch
  handle text r c site = let (a, site') = dispatch text r site in (answered a, site')

  -- The whole way of a request: the middleware of the settings, and what it lets through.
  unfoldable pub respond :
      Slashes
      → Layers (Site dj) (Response Page Text)
      → Text
      → Bool
      → Request dj
      → Site dj
      → Outcome (Response Page Text) × Site dj
  unfolding handle
  respond slashes layers text token r =
      layers.load middleware (handle text r)
        (arriving (λ t. django.resolve (urlpatterns admin) t) slashes text token r.method)

-- A POST to a view gets through by a valid token only.
with_token :
    (token : Bool) (m : Method) → m ≡ post → (is_safe m || (token || false)) ≡ true → token ≡ true
with_token true m e h = refl
with_token false m e h = ground arith

module _ {Admin : Type 0} where
  accounts-address :
      (route : Route) (text : Text)
      → Finds (accounts_urlpatterns {Admin = Admin}) text (inr route)
      → codes "accounts/" ++ text ≡ address route
  accounts-address route text (inl (tail, e, (nil, same))) =
      same_view (λ x. codes "accounts/" ++ text ≡ address x) signup_url route same
        (rw (e, nil) refl)
  accounts-address route text (inr (inl (tail, e, (nil, same)))) =
      same_view (λ x. codes "accounts/" ++ text ≡ address x) login_url route same (rw (e, nil) refl)
  accounts-address route text (inr (inr end)) = absurd end

  urlpatterns-address :
      (admin : Text → Option Admin) (route : Route) (text : Text)
      → Finds (urlpatterns admin) text (inr route)
      → text ≡ address route
  urlpatterns-address admin route text (inl (tail, e, found)) =
      absurd (admin_page-ne-view (admin tail) route found)
  urlpatterns-address admin route text (inr (inl (tail, e, end))) = absurd end
  urlpatterns-address admin route text (inr (inr (inl (tail, e, here)))) =
      e ∙ accounts-address route tail here
  urlpatterns-address admin route text (inr (inr (inr end))) = absurd end

  address-urlpatterns :
      (admin : Text → Option Admin) (route : Route) (text : Text)
      → text ≡ address route
      → Finds (urlpatterns admin) text (inr route)
  address-urlpatterns admin signup_url text e = inr (inr (inl (_, e, inl ([], refl, (refl, refl)))))
  address-urlpatterns admin login_url text e =
      inr (inr (inl (_, e, inr (inl ([], refl, (refl, refl))))))

-- A path resolves to a view of this project exactly if it is that view's path.
pub resolve-address :
    {Admin : Type 0} (django : Resolver (Served Admin Route)) (admin : Text → Option Admin)
    (route : Route) (text : Text)
    → (django.resolve (urlpatterns admin) text ≡ some (inr route)) ↔ (text ≡ address route)
resolve-address django admin route text = (
  λ e. urlpatterns-address admin route text (resolve-Finds django (urlpatterns admin) text _ e),
  λ h.
      Finds-resolve django (urlpatterns admin) text _ refl (address-urlpatterns admin route text h),
)

module _ (dj : Backend) (deco : Decorators (Site dj) Page Text) {Admin : Type 0}
    (django : Resolver (Served Admin Route)) (admin : Text → Option Admin)
    (admin_view : Admin → Request dj → Site dj → Answer dj) where
  -- The administration site, at a path that is its own, answers a request so.
  abbrev pub IsAdminAnswer : Text → Request dj → Site dj → Answer dj → Type 0
  IsAdminAnswer text r site reply =
      (a : Admin) × (django.resolve (urlpatterns admin) text ≡ some (inl a))
      × (admin_view a r site ≡ reply)

  answer-redirect :
      (o : Option (Served Admin Route)) (text : Text) (r : Request dj) (site : Site dj) (to : Text)
      (after : Site dj)
      → django.resolve (urlpatterns admin) text ≡ o
      → answer dj deco django admin admin_view o r site ≡ (redirect to, after)
      → IsAdminAnswer text r site (redirect to, after)
        ⊎ ((text ≡ address login_url) × IsLogin dj deco r site to after)
  unfolding answer
  answer-redirect none text r site to after found e = ground arith
  answer-redirect (some (inl a)) text r site to after found e = inl (a, found, e)
  answer-redirect (some (inr route)) text r site to after found e =
      let (at_login, logged) = serve-redirect dj deco route r site to after e in
      inr ((resolve-address django admin route text).0 found ∙ ap address at_login, logged)

  dispatch-redirect :
      (text : Text) (r : Request dj) (site : Site dj) (to : Text) (after : Site dj)
      → dispatch dj deco django admin admin_view text r site ≡ (redirect to, after)
      → IsAdminAnswer text r site (redirect to, after)
        ⊎ ((text ≡ address login_url) × IsLogin dj deco r site to after)
  unfolding dispatch
  dispatch-redirect text r site to after e =
      answer-redirect (django.resolve (urlpatterns admin) text) text r site to after refl e

  from_view :
      (reply : Answer dj) (to : Text) (after : Site dj)
      → ◌≡◌ {A = Outcome (Response Page Text) × Site dj}
          (answered reply.0, reply.1)
          (answered (redirect to), after)
      → reply ≡ (redirect to, after)
  from_view reply to after e = cc

  -- The middleware's own redirect, which adds a slash, is the answer `slash_appended`. Beside it, a
  -- request for any path, with a valid CSRF token or without, is answered by a redirect only if a page
  -- of the administration site does so, or if it is a POST with a valid token to accounts/login/ by a
  -- visitor who was not logged in, with valid credentials and a `next` that is an address or names
  -- one: it goes to that address, and the visitor is then logged in as the user of the credentials.
  pub respond-redirect :
      (slashes : Slashes dj deco django admin admin_view)
      (layers : Layers (Site dj) (Response Page Text)) (text : Text) (token : Bool) (r : Request dj)
      (site : Site dj) (to : Text) (after : Site dj)
      → respond dj deco django admin admin_view slashes layers text token r site
        ≡ (answered (redirect to), after)
      → IsAdminAnswer text r site (redirect to, after)
        ⊎ ((text ≡ address login_url) × (token ≡ true) × IsLogin dj deco r site to after)
  unfolding respond handle
  respond-redirect slashes layers text token r site to after e =
      let c = arriving (λ t. django.resolve (urlpatterns admin) t) slashes text token r.method in
      let view = handle dj deco django admin admin_view text r in
      let g = sym (load-guarded layers view todo c site) ∙ e in
      elim (Bool-cases c.slash_missing) [
        | inl missing ↦ ground arith
        | inr complete ↦ elim (Bool-cases (admits c)) [
          | inr out ↦ ground arith
          | inl let_in ↦
              let seen : dispatch dj deco django admin admin_view text r site
                  ≡ (redirect to, after) =
                from_view _ to after (rw (complete, let_in) at g) in
              elim (dispatch-redirect text r site to after seen) [
                | inl by_admin ↦ inl by_admin
                | inr (at_login, logged) ↦
                    let found = (resolve-address django admin login_url text).1 at_login in
                    inr (at_login, with_token token r.method logged.0 (rw found at let_in), logged)
              ]
        ]
      ]
