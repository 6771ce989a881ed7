-- ===== src/Settings/Guarded.antt =====
-- What the middleware of each project does around its views.
use til.Prelude.{◌≡◌, refl, ap, ◌∙◌, true, List, [], ◌∷◌, if◌then◌else◌, Bool-cases, inl, inr}
use til.Settings.{
  Middleware, security_middleware, session_middleware, common_middleware, csrf_view_middleware,
  authentication_middleware, message_middleware, x_frame_options_middleware, Incoming, forbidden,
  slash_appended, Handler, admits, Layers,
}
use til.Settings.Blog as Blog
use til.Settings.Todo as Todo
use til.Settings.Articles as Articles
use til.Settings.Music as Music

pub data Project : Type 0 where
  blog todo articles music : Project

abbrev pub middleware : Project → List Middleware
middleware blog = Blog.middleware
middleware todo = Todo.middleware
middleware articles = Articles.middleware
middleware music = Music.middleware

-- The request as a view sees it.
abbrev pub ready : Incoming → Incoming
ready c = record c { session_loaded = true; user_known = true; messages_ready = true }

-- What a request meets before the URL configuration and its view: the slash at the end of its path,
-- then the CSRF token.
abbrev pub guarded : {Site A : Type 0} → Handler Site A → Handler Site A
guarded view c site =
    if c.slash_missing
    then (slash_appended, site)
    else if admits c
    then view (ready c) site
    else (forbidden, site)

module _ {Site A : Type 0} (django : Layers Site A) (view : Handler Site A) where
  open django use {load, layer}

  outer :
      (m : Middleware) (ms : List Middleware) (c : Incoming) (site : Site)
      → load (m ∷ ms) view c site ≡ layer m (load ms view) c site
  outer m ms c site = ap (λ f. f c site) (django.load_cons m ms view)

  -- The last three, around the view.
  inner :
      (c : Incoming) (site : Site)
      → c.session_loaded ≡ true
      → load
          (authentication_middleware ∷ message_middleware ∷ x_frame_options_middleware ∷ [])
          view
          c
          site
        ≡ view (record c { user_known = true; messages_ready = true }) site
  inner c site there =
      outer authentication_middleware _ c site
      ∙ django.authentication _ c site there
      ∙ outer message_middleware _ (record c { user_known = true }) site
      ∙ django.message _ (record c { user_known = true }) site there
      ∙ outer x_frame_options_middleware _ _ site
      ∙ django.x_frame_options _ _ site
      ∙ ap (λ f. f (record c { user_known = true; messages_ready = true }) site)
          (django.load_nil view)

  checked :
      (c : Incoming) (site : Site)
      → c.session_loaded ≡ true
      → load
          (csrf_view_middleware ∷ authentication_middleware ∷ message_middleware
            ∷ x_frame_options_middleware ∷ [])
          view
          c
          site
        ≡ (if admits c
            then view (record c { user_known = true; messages_ready = true }) site
            else (forbidden, site))
  checked c site there = elim (Bool-cases (admits c)) [
    | inl let_in ↦
        outer csrf_view_middleware _ c site
        ∙ django.csrf_view _ c site let_in
        ∙ inner c site there
        ∙ rw let_in refl
    | inr out ↦
        outer csrf_view_middleware _ c site ∙ django.csrf_view_fails _ c site out ∙ rw out refl
  ]

  load-guarded_lem :
      (c : Incoming) (site : Site) → load (middleware blog) view c site ≡ guarded view c site
  load-guarded_lem c site =
      outer security_middleware _ c site
      ∙ django.security _ c site
      ∙ outer session_middleware _ c site
      ∙ django.session _ c site
      ∙ outer common_middleware _ _ site
      ∙ elim (Bool-cases c.slash_missing) [
        | inl missing ↦ django.common_slash _ _ site missing ∙ rw missing refl
        | inr complete ↦
            django.common _ _ site complete
            ∙ checked (record c { session_loaded = true }) site refl
            ∙ rw complete refl
      ]

  -- In each of the four projects: a request whose path lacks its slash is answered by that, one to a
  -- URL that exists, with a method other than GET, HEAD, OPTIONS and TRACE, no valid CSRF token and no
  -- exemption, is forbidden, and both leave the site as it is. Any other goes on to the URL
  -- configuration and its view, with session, user and messages loaded, and is answered there. So the
  -- order of the middleware is one in which each finds what it needs.
  pub load-guarded :
      (p : Project) (c : Incoming) (site : Site)
      → load (middleware p) view c site ≡ guarded view c site
  load-guarded blog = load-guarded_lem
  load-guarded todo = load-guarded_lem
  load-guarded articles = load-guarded_lem
  load-guarded music = load-guarded_lem
