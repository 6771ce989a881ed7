-- ===== src/Blog/Urls/Routing.antt =====
-- crud/urls.py, articles/urls.py and accounts/urls.py: the paths of the views.
use til.Prelude.{List, Bool, ◌≡◌, inl, inr, Option, none, some, [], ◌∷◌, ◌++◌}
use til.Django.{Text, Response, not_found}
use til.Django.Urls.{
  codes, IsNumeral, lit, int_part, Patterns, done, path, include, admin_site, Resolver, Served,
  admin_page,
}
use til.Settings.{arriving, AppendSlash, Incoming, Outcome, answered, Layers}
use til.Settings.Blog.{middleware}
use til.Blog.Models.{Page, Target, Backend, Site, Request, Deco}
use til.Blog.Articles.{Answer}
use til.Blog.Urls.{
  Route, articles_index, articles_create, articles_detail, articles_delete, articles_update,
  articles_comment_create, articles_comment_delete, accounts_login, accounts_logout,
  accounts_signup, accounts_delete, accounts_update, accounts_change_password, serve,
}
pub mod Addresses
pub mod Respond
pub mod Safe
pub mod Shown
pub mod Visited

-- articles/urls.py
abbrev pub articles_urlpatterns : {Admin : Type 0} → Patterns (Served Admin Route)
articles_urlpatterns = path [] (inr articles_index) (
    path (lit (codes "create/") ∷ []) (inr articles_create) (
      path (int_part ∷ lit (codes "/") ∷ []) (λ pk. inr (articles_detail pk))
        (path (int_part ∷ lit (codes "/delete/") ∷ []) (λ pk. inr (articles_delete pk))
          (path (int_part ∷ lit (codes "/update/") ∷ []) (λ pk. inr (articles_update pk))
            (path (int_part ∷ lit (codes "/create/") ∷ []) (λ pk. inr (articles_comment_create pk))
              (path (lit (codes "comment/") ∷ int_part ∷ lit (codes "/delete/") ∷ [])
                (λ pk. inr (articles_comment_delete pk)) done))))))

-- accounts/urls.py
abbrev pub accounts_urlpatterns : {Admin : Type 0} → Patterns (Served Admin Route)
accounts_urlpatterns = path (lit (codes "login/") ∷ []) (inr accounts_login) (
    path (lit (codes "logout/") ∷ []) (inr accounts_logout) (
      path (lit (codes "signup/") ∷ []) (inr accounts_signup) (
        path (lit (codes "delete/") ∷ []) (inr accounts_delete) (
          path (lit (codes "update/") ∷ []) (inr accounts_update)
            (path (lit (codes "password/") ∷ []) (inr accounts_change_password) done)))))

-- crud/urls.py
abbrev pub urlpatterns : {Admin : Type 0} → (Text → Option Admin) → Patterns (Served Admin Route)
urlpatterns admin =
    admin_site (codes "admin/") (λ text. admin_page (admin text))
      (include (codes "articles/") articles_urlpatterns
        (include (codes "accounts/") accounts_urlpatterns done))

-- The path of a view, `d` a text for its number.
abbrev pub address : Text → Route → Text
address d articles_index = codes "articles/"
address d articles_create = codes "articles/create/"
address d (articles_detail pk) = codes "articles/" ++ d ++ codes "/"
address d (articles_delete pk) = codes "articles/" ++ d ++ codes "/delete/"
address d (articles_update pk) = codes "articles/" ++ d ++ codes "/update/"
address d (articles_comment_create pk) = codes "articles/" ++ d ++ codes "/create/"
address d (articles_comment_delete pk) = codes "articles/comment/" ++ d ++ codes "/delete/"
address d accounts_login = codes "accounts/login/"
address d accounts_logout = codes "accounts/logout/"
address d accounts_signup = codes "accounts/signup/"
address d accounts_delete = codes "accounts/delete/"
address d accounts_update = codes "accounts/update/"
address d accounts_change_password = codes "accounts/password/"

abbrev pub IsKey : Route → Text → Type 0
IsKey (articles_detail pk) d = IsNumeral pk d
IsKey (articles_delete pk) d = IsNumeral pk d
IsKey (articles_update pk) d = IsNumeral pk d
IsKey (articles_comment_create pk) d = IsNumeral pk d
IsKey (articles_comment_delete pk) d = IsNumeral pk d
IsKey _ d = Unit {0}

abbrev pub IsAddress : Route → Text → Type 0
IsAddress route text = (d : Text) × IsKey route d × (text ≡ address d route)

module _ (dj : Backend) (deco : Deco dj) {Admin : Type 0} (django : Resolver (Served Admin Route))
    (admin : Text → Option Admin) (admin_view : Admin → Request dj → Site dj → Answer dj deco) where
  -- A path that resolves to nothing is answered by a 404.
  unfoldable pub answer : Option (Served Admin Route) → Request dj → Site dj → Answer dj deco
  answer none r site = (not_found, site)
  answer (some (inl a)) r site = admin_view a r site
  answer (some (inr route)) r site = serve dj deco route r site

  -- The answer to a request for a path, given what the middleware lets through.
  unfoldable pub dispatch : Text → Request dj → Site dj → Answer dj deco
  unfolding answer
  dispatch text = answer (django.resolve (urlpatterns admin) text)

  -- What APPEND_SLASH makes of the paths of this project.
  abbrev pub Slashes : Type 0
  Slashes = AppendSlash (Served Admin Route) (λ text. django.resolve (urlpatterns admin) text)

  -- A request as it comes in: its path, and whether its CSRF token is valid.
  unfoldable pub incoming : Slashes → Text → Bool → Request dj → Incoming
  incoming slashes text token r =
      arriving (λ t. django.resolve (urlpatterns admin) t) slashes text token r.method

  unfoldable pub handle :
      Text → Request dj → Incoming → Site dj → Outcome (Response Page Target) × Site dj
  unfolding dispatch
  handle text r c site = let (a, site') = dispatch text r site in (answered a, site')

  -- The whole way of a request: the middleware of the settings, and what it lets through.
  unfoldable pub respond :
      Slashes
      → Layers (Site dj) (Response Page Target)
      → Text
      → Bool
      → Request dj
      → Site dj
      → Outcome (Response Page Target) × Site dj
  unfolding handle incoming
  respond slashes layers text token r =
      layers.load middleware (handle text r) (incoming slashes text token r)

  -- Requests, one after the other: each one's path, whether its CSRF token is valid, and the rest.
  unfoldable pub visit :
      Slashes
      → Layers (Site dj) (Response Page Target)
      → List (Text × Bool × Request dj)
      → Site dj
      → Site dj
  unfolding respond
  visit slashes layers [] site = site
  visit slashes layers ((text, token, r) ∷ rest) site =
      visit slashes layers rest (respond slashes layers text token r site).1
