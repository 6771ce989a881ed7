-- ===== src/Blog/Urls/Routing/Shown.antt =====
-- From the form of a new article to the page that shows it.
use mathlib.Core.List.{Memᴰ}
use mathlib.Core.Option.{none-ne-some}
use til.Prelude.{Bool, ℕ, ◌≡◌, refl, sym, ap, ◌∙◌, true, Option, none, some, List, [], ◌∷◌, arith}
use til.Django.{Response, Text, get, head, post, is_in, same_method, redirect, page}
use til.Django.Tables.{insert_self}
use til.Django.Urls.{IsNumeral, Resolver, Served}
use til.Blog.Models.{
  Page, Target, Article, Backend, Site, Request, request_user, Deco, detail, article_detail,
}
use til.Blog.Changes.{IsConsistent}
use til.Blog.Articles.{
  Answer, is_authenticated, comments_of, save_article, create_body, create, detail_found,
  detail_view,
}
use til.Blog.Urls.{Route, articles_create, articles_detail, serve}
use til.Settings.{Layers, Outcome, answered}
use til.Blog.Urls.Routing.{address, Slashes, respond}
use til.Blog.Urls.Routing.Respond.{respond-serve}

no_members : {A : Type 0} (l : List A) → ((x : A) → ¬ Memᴰ x l) → l ≡ []
no_members [] h = refl
no_members (x ∷ l) h = absurd (h x (Memᴰ.head refl))

module _ (dj : Backend) (deco : Deco dj) where
  open dj use {users, articles, comments, article_form}

  -- No comment stands on an article that is not there.
  comments_of-missing :
      (pk : ℕ) (site : Site dj)
      → IsConsistent dj site
      → articles.find pk site.article_rows ≡ none
      → comments_of dj deco pk site ≡ []
  unfolding comments_of
  comments_of-missing pk site h gone = no_members _ (λ (k, c) member.
      let (there, on) = (comments.select_iff k c _ site.comment_rows).0 member in
      let (a, found) = h.subject k c there in
      let same : c.article ≡ pk = ground arith in none-ne-some a (sym gone ∙ rw (← same) found))

  -- The site with one more article.
  abbrev with_article : Article → Site dj → Site dj
  with_article a site = record site { article_rows = (articles.insert a site.article_rows).1 }

  create_body-valid :
      (r : Request dj) (site : Site dj) (title content : Text) (u : ℕ)
      → r.method ≡ post
      → request_user dj site ≡ some u
      → article_form r.post_data ≡ some (title, content)
      → let a : Article = record { title = title; content = content; user = u } in
        create_body dj deco r site
        ≡ (redirect (detail (articles.insert a site.article_rows).0), with_article a site)
  unfolding create_body save_article same_method
  create_body-valid r site title content u posted known valid = rw (posted, known, valid) refl

  create-valid :
      (r : Request dj) (site : Site dj) (title content : Text) (u : ℕ)
      → r.method ≡ post
      → request_user dj site ≡ some u
      → article_form r.post_data ≡ some (title, content)
      → let a : Article = record { title = title; content = content; user = u } in
        create dj deco r site
        ≡ (redirect (detail (articles.insert a site.article_rows).0), with_article a site)
  unfolding create is_authenticated is_in same_method
  create-valid r site title content u posted known valid =
      let body = create_body dj deco r in
      let guarded = deco.require_http_methods (get ∷ post ∷ []) r.method body in
      let logged : is_authenticated (request_user dj site) ≡ true = rw known refl in
      let allowed : is_in r.method (get ∷ post ∷ []) ≡ true = rw posted refl in
      ap (λ b. deco.login_required b guarded site) logged
      ∙ deco.logged_in guarded site
      ∙ deco.method_in (get ∷ post ∷ []) r.method body site allowed
      ∙ create_body-valid r site title content u posted known valid

  detail_view-found :
      (r : Request dj) (pk : ℕ) (site : Site dj) (a : Article)
      → r.method ≡ get
      → articles.find pk site.article_rows ≡ some a
      → detail_view dj deco r pk site
        ≡ (page (article_detail pk a (comments_of dj deco pk site)), site)
  unfolding detail_view detail_found is_in same_method
  detail_view-found r pk site a got found =
      let allowed : is_in r.method (get ∷ head ∷ []) ≡ true = rw got refl in
      deco.method_in _ r.method _ site allowed ∙ rw found refl

module _ (dj : Backend) (deco : Deco dj) {Admin : Type 0} (django : Resolver (Served Admin Route))
    (admin : Text → Option Admin) (admin_view : Admin → Request dj → Site dj → Answer dj deco) where
  open dj use {articles, article_form}

  -- A logged-in user posts a valid form, with a valid CSRF token, to the path of `create`, and is
  -- sent to an article; a GET at the path of that article, with any decimal notation of its key, then
  -- shows the title and the content of the form, the user as the author, and no comment. The site is
  -- consistent before; the requests go through the middleware and the URL configuration.
  pub create-shown :
      (slashes : Slashes dj deco django admin admin_view)
      (layers : Layers (Site dj) (Response Page Target)) (r : Request dj) (site : Site dj)
      (title content : Text) (u : ℕ)
      → IsConsistent dj site
      → r.method ≡ post
      → request_user dj site ≡ some u
      → article_form r.post_data ≡ some (title, content)
      → (pk : ℕ) × (site' : Site dj) × (respond dj deco django admin admin_view slashes layers
            (address [] articles_create)
            true
            r
            site
          ≡ (answered (redirect (detail pk)), site'))
        × ((d : Text) (token : Bool) (r' : Request dj)
            → IsNumeral pk d
            → r'.method ≡ get
            → respond dj deco django admin admin_view slashes layers
                (address d (articles_detail pk))
                token
                r'
                site'
              ≡ (
                answered (
                    page (
                      article_detail pk
                        (record { title = title; content = content; user = u })
                        [])),
                site',
              ))
  unfolding serve comments_of
  create-shown slashes layers r site title content u ok posted known valid =
      let a : Article = record { title = title; content = content; user = u } in
      let pk : ℕ = (articles.insert a site.article_rows).0 in
      let site' : Site dj = with_article dj deco a site in
      let no_comments : comments_of dj deco pk site ≡ [] =
        comments_of-missing dj deco pk site ok (articles.insert_fresh a site.article_rows) in
      let wrap : Answer dj deco → Outcome (Response Page Target) × Site dj =
        λ x. (answered x.0, x.1) in
      (
        pk,
        site',
        respond-serve dj deco django admin admin_view slashes layers articles_create _ true r site
              ([], tt, refl) (rw posted refl)
            ∙ ap wrap (create-valid dj deco r site title content u posted known valid),
        λ d token r' numeral got.
            respond-serve dj deco django admin admin_view slashes layers (articles_detail pk) _
              token r' site' (d, numeral, refl) (rw got refl)
            ∙ ap wrap (
                detail_view-found dj deco r' pk site' a got
                  (insert_self articles a site.article_rows)
                ∙ ap (λ l. (page (article_detail pk a l), site')) no_comments),
      )
