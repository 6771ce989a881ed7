-- ===== src/Blog/Urls/Routing/Visited.antt =====
-- The database invariant of the blog under requests for any paths.
use til.Prelude.{sym, subst, Bool, Bool-cases, Option, none, some, List, [], ◌∷◌, inl, inr}
use til.Django.{Response, Text}
use til.Django.Urls.{Resolver, Served}
use til.Settings.{Layers, Incoming, Outcome, admits}
use til.Settings.Guarded.{blog, guarded, load-guarded}
use til.Blog.Models.{Page, Target, Backend, Site, Request, Deco}
use til.Blog.Changes.{IsConsistent}
use til.Blog.Articles.{Answer}
use til.Blog.Urls.{Route, browse}
use til.Blog.Urls.Consistent.{browse-IsConsistent}
use til.Blog.Urls.Routing.{urlpatterns, answer, dispatch, Slashes, incoming, handle, respond, visit}

module _ (dj : Backend) (deco : Deco dj) {Admin : Type 0} (django : Resolver (Served Admin Route))
    (admin : Text → Option Admin) (admin_view : Admin → Request dj → Site dj → Answer dj deco) where
  -- The administration site leaves a consistent database consistent.
  abbrev pub AdminKeeps : Type 0
  AdminKeeps =
      (a : Admin) (r : Request dj) (site : Site dj)
      → IsConsistent dj site
      → IsConsistent dj (admin_view a r site).1

  answer-IsConsistent :
      (o : Option (Served Admin Route)) (r : Request dj) (site : Site dj)
      → AdminKeeps
      → IsConsistent dj site
      → IsConsistent dj (answer dj deco django admin admin_view o r site).1
  unfolding answer
  answer-IsConsistent none r site keeps h = h
  answer-IsConsistent (some (inl a)) r site keeps h = keeps a r site h
  answer-IsConsistent (some (inr route)) r site keeps h =
      unfold browse in browse-IsConsistent dj deco ((route, r) ∷ []) site h

  guarded-IsConsistent :
      (text : Text) (r : Request dj) (c : Incoming) (site : Site dj)
      → AdminKeeps
      → IsConsistent dj site
      → IsConsistent dj (guarded (handle dj deco django admin admin_view text r) c site).1
  unfolding handle dispatch
  guarded-IsConsistent text r c site keeps h = elim (Bool-cases c.slash_missing) [
    | inl missing ↦ rw missing h
    | inr complete ↦ elim (Bool-cases (admits c)) [
      | inl let_in ↦
          rw (complete, let_in)
            (answer-IsConsistent (django.resolve (urlpatterns admin) text) r site keeps h)
      | inr out ↦ rw (complete, out) h
    ]
  ]

  -- Any sequence of requests, for any paths, with valid CSRF tokens or without, leaves a consistent
  -- database consistent, if the administration site does: every comment stands under an article,
  -- every article has a user, titles and comments fit their columns, and every password has at least
  -- 8 characters, not all of them digits.
  pub visit-IsConsistent :
      (slashes : Slashes dj deco django admin admin_view)
      (layers : Layers (Site dj) (Response Page Target))
      (requests : List (Text × Bool × Request dj)) (site : Site dj)
      → AdminKeeps
      → IsConsistent dj site
      → IsConsistent dj (visit dj deco django admin admin_view slashes layers requests site)
  unfolding visit respond
  visit-IsConsistent slashes layers [] site keeps h = h
  visit-IsConsistent slashes layers ((text, token, r) ∷ rest) site keeps h =
      let c = incoming dj deco django admin admin_view slashes text token r in
      let view = handle dj deco django admin admin_view text r in
      visit-IsConsistent slashes layers rest
        (respond dj deco django admin admin_view slashes layers text token r site).1 keeps
        (subst (λ (x : Outcome (Response Page Target) × Site dj). IsConsistent dj x.1)
          (sym (load-guarded layers view blog c site)) (guarded-IsConsistent text r c site keeps h))
