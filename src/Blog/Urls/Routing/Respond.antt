-- ===== src/Blog/Urls/Routing/Respond.antt =====
-- The whole way of a request to a view of the blog.
use til.Prelude.{◌≡◌, ap, ◌∙◌, Bool, true, false, ◌||◌, Option, some, inr}
use til.Django.{Response, Text}
use til.Django.Urls.{Resolver, Served}
use til.Settings.{Layers, answered, is_safe, admits}
use til.Settings.Guarded.{blog, load-guarded}
use til.Blog.Models.{Page, Target, Backend, Site, Request, Deco}
use til.Blog.Articles.{Answer}
use til.Blog.Urls.{Route, serve}
use til.Blog.Urls.Routing.{
  urlpatterns, IsAddress, answer, dispatch, Slashes, incoming, handle, respond,
}
use til.Blog.Urls.Routing.Addresses.{resolve-IsAddress}

module _ (dj : Backend) (deco : Deco dj) {Admin : Type 0} (django : Resolver (Served Admin Route))
    (admin : Text → Option Admin) (admin_view : Admin → Request dj → Site dj → Answer dj deco) where
  dispatch-serve :
      (route : Route) (text : Text) (r : Request dj) (site : Site dj)
      → IsAddress route text
      → dispatch dj deco django admin admin_view text r site ≡ serve dj deco route r site
  unfolding dispatch
  dispatch-serve route text r site h =
      ap (λ o. answer dj deco django admin admin_view o r site)
        ((resolve-IsAddress django admin route text).1 h)

  resolve_address :
      (route : Route) (text : Text)
      → IsAddress route text
      → django.resolve (urlpatterns admin) text ≡ some (inr route)
  resolve_address route text h = (resolve-IsAddress django admin route text).1 h

  -- A request that the middleware lets through, at the path of a view, is answered by the view.
  pub respond-serve :
      (slashes : Slashes dj deco django admin admin_view)
      (layers : Layers (Site dj) (Response Page Target)) (route : Route) (text : Text)
      (token : Bool) (r : Request dj) (site : Site dj)
      → IsAddress route text
      → (is_safe r.method || (token || false)) ≡ true
      → respond dj deco django admin admin_view slashes layers text token r site
        ≡ (answered (serve dj deco route r site).0, (serve dj deco route r site).1)
  unfolding respond incoming handle
  respond-serve slashes layers route text token r site h let_in =
      let c = incoming dj deco django admin admin_view slashes text token r in
      let passes : admits c ≡ true = rw (resolve_address route text h) let_in in
      load-guarded layers (handle dj deco django admin admin_view text r) blog c site
      ∙ rw (slashes.complete text (inr route) (resolve_address route text h), passes)
          (ap (λ (x : Answer dj deco). (answered x.0, x.1)) (dispatch-serve route text r site h))
