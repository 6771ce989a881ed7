-- ===== src/Examples/Addresses.antt =====
-- Requests to the paths of the blog: a user with the key 0 writes an article.
use mathlib.Core.Option.{some-injective, none-ne-some}
use til.Prelude.{
  List, Bool, true, false, ℕ, ◌≡◌, refl, sym, ap, zero, suc, arith, ◌↔◌, inr, Option, none, some,
  [], ◌∷◌,
}
use til.Django.{Text, get, post, redirect, not_found, page}
use til.Django.Urls.{codes, IsNumeral}
use til.Blog.Models.{User, Site, Request, request_user, detail, article_detail}
use til.Blog.Changes.{IsConsistent}
use til.Blog.Articles.{Answer}
use til.Blog.Urls.{articles_create, articles_detail}
use til.Blog.Urls.Routing.{urlpatterns, address, IsAddress, Slashes, respond, visit}
use til.Blog.Urls.Routing.Addresses.{resolve-IsAddress}
use til.Blog.Urls.Routing.Shown.{create-shown}
use til.Blog.Urls.Routing.Visited.{visit-IsConsistent}
use til.Examples.Slots.{find}
use til.Examples.Visitor.{present, visitor}
use til.Examples.Weblog.{dj, deco, fitting_article}
use til.Settings.{answered}
use til.Examples.Requests.{layers}
use til.Examples.Paths.{resolver}

-- No page of the administration site is in these tests.
abbrev admin : Text → Option (Unit {0})
admin text = none

abbrev admin_view : Unit {0} → Request dj → Site dj → Answer dj deco
admin_view u r site = (not_found, site)

abbrev site : Site dj
site = record {
  user_rows =
      some (record {
        username = codes "ann";
        password = codes "pass-word";
        email = [];
        first_name = [];
        last_name = [];
      })
      ∷ [];
  article_rows = [];
  comment_rows = [];
  session = some 0;
}

abbrev posting : Request dj
posting = record { method = post; post_data = (codes "title", codes "text"); next = none }

one_user : (k : ℕ) (u : User) → find k site.user_rows ≡ some u → u.password ≡ codes "pass-word"
unfolding find
one_user zero u e = sym (ap (λ x. x.password) (some-injective _ _ e))
one_user (suc k) u e = absurd (none-ne-some _ e)

site-IsConsistent : IsConsistent dj site
unfolding find
site-IsConsistent = record {
  author = λ k a e. absurd (none-ne-some a e);
  subject = λ k c e. absurd (none-ne-some c e);
  title_fits = λ k a e. absurd (none-ne-some a e);
  comment_fits = λ k c e. absurd (none-ne-some c e);
  passwords = λ k u e. rw (one_user k u e) (omega arith, refl);
}

ann_known : request_user dj site ≡ some 0
unfolding request_user visitor present find
ann_known = refl

title_fits : fitting_article posting.post_data ≡ some (codes "title", codes "text")
unfolding fitting_article
title_fits = refl

resolve-IsAddress_example :
    (resolver.resolve (urlpatterns admin) (codes "articles/007/") ≡ some (inr (articles_detail 7)))
    ↔ IsAddress (articles_detail 7) (codes "articles/007/")
resolve-IsAddress_example =
    resolve-IsAddress resolver admin (articles_detail 7) (codes "articles/007/")

slashes : Slashes dj deco resolver admin admin_view
slashes = record { lacks_slash = λ text. false; complete = λ text x e. refl }

create-shown_example :
    (pk : ℕ) × (site' : Site dj) × (respond dj deco resolver admin admin_view slashes layers
        (address [] articles_create)
        true
        posting
        site
      ≡ (answered (redirect (detail pk)), site'))
    × ((d : Text) (token : Bool) (r' : Request dj)
        → IsNumeral pk d
        → r'.method ≡ get
        → respond dj deco resolver admin admin_view slashes layers
            (address d (articles_detail pk))
            token
            r'
            site'
          ≡ (
            answered (
                page (
                  article_detail pk
                    (record { title = codes "title"; content = codes "text"; user = 0 })
                    [])),
            site',
          ))
create-shown_example =
    create-shown dj deco resolver admin admin_view slashes layers posting site (codes "title")
      (codes "text") 0 site-IsConsistent refl ann_known title_fits

-- An article, an attempt without a CSRF token, a path that fits no URL, and the user's account gone.
abbrev walk : List (Text × Bool × Request dj)
walk =
    (codes "articles/create/", true, posting)
    ∷ (codes "articles/0/delete/", false, posting)
    ∷ (codes "nowhere", true, posting)
    ∷ (codes "accounts/delete/", true, posting)
    ∷ []

visit-IsConsistent_example :
    IsConsistent dj (visit dj deco resolver admin admin_view slashes layers walk site)
visit-IsConsistent_example =
    visit-IsConsistent dj deco resolver admin admin_view slashes layers walk site (λ a r s h. h)
      site-IsConsistent

abbrev getting : Request dj
getting = record { method = get; post_data = ([], []); next = none }
