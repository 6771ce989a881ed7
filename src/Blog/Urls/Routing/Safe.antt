-- ===== src/Blog/Urls/Routing/Safe.antt =====
-- Requests for any path of the blog by a safe method.
use til.Prelude.{◌≡◌, inl, Option, some}
use til.Django.{Text}
use til.Django.Urls.{Resolver, Served}
use til.Blog.Models.{Backend, Site, Request, Deco}
use til.Blog.Articles.{Answer}
use til.Blog.Urls.{Route}
use til.Blog.Urls.Routing.{urlpatterns}

module _ (dj : Backend) (deco : Deco dj) {Admin : Type 0} (django : Resolver (Served Admin Route))
    (admin : Text → Option Admin) (admin_view : Admin → Request dj → Site dj → Answer dj deco) where
  -- The path belongs to a page of the administration site.
  abbrev pub IsAdminPath : Text → Type 0
  IsAdminPath text = (a : Admin) × (django.resolve (urlpatterns admin) text ≡ some (inl a))
