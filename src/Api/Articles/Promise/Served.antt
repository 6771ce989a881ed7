-- ===== src/Api/Articles/Promise/Served.antt =====
-- The article interface keeps its promise, whatever is asked of it.
use til.Prelude.{ℕ, ◌≡◌, Option, refl, sym, subst, true, false, List, [], ◌∷◌, Bool-cases, inl, inr}
use til.Django.Urls.{Resolver, Served}
use til.Django.{
  Text, Method, get, head, post, put, delete, options, trace, other, is_in, same_method,
}
use til.Api.{Reply, Framework}
use til.Api.Articles.{
  Backend, Content, Store, Request, Answer, article_cr_body, article_cr, article_rud,
  comment_detail, post_comment, comment_create, Route, articles_url, article_url, comment_url,
  article_comments_url, serve,
}
use til.Api.Articles.Exchange.{asks}
use til.Api.Articles.Routing.{IsAddress, dispatch, answer, resolve_articles-IsAddress}
use til.Api.Articles.Promise.{Db, Unchanged, db_of, Allowed}
use til.Api.Articles.Promise.Kept.{
  stays, Gives, list_articles-Listed, post_article-Created, rud-ForArticle, found-ForComment,
  post_comment-Commented,
}

-- What `api_view` lets through to each view.
abbrev methods : Route → List Method
methods articles_url = get ∷ post ∷ []
methods (article_url pk) = get ∷ put ∷ delete ∷ []
methods (comment_url pk) = get ∷ delete ∷ put ∷ []
methods (article_comments_url pk) = post ∷ []

module _ (dj : Backend) where
  open dj use {Body}

  -- Of any other method the promise says that it changes nothing.
  Unchanged-Allowed :
      (route : Route) (m : Method) (body : Body) (db : Db) (reply : Reply Content) (db' : Db)
      → is_in m (methods route) ≡ false
      → Unchanged db db'
      → Allowed dj route m body db reply db'
  unfolding is_in same_method
  Unchanged-Allowed articles_url get body db reply db' out u = cc
  Unchanged-Allowed articles_url head body db reply db' out u = u
  Unchanged-Allowed articles_url post body db reply db' out u = cc
  Unchanged-Allowed articles_url put body db reply db' out u = u
  Unchanged-Allowed articles_url delete body db reply db' out u = u
  Unchanged-Allowed articles_url options body db reply db' out u = u
  Unchanged-Allowed articles_url trace body db reply db' out u = u
  Unchanged-Allowed articles_url other body db reply db' out u = u
  Unchanged-Allowed (article_url pk) get body db reply db' out u = cc
  Unchanged-Allowed (article_url pk) head body db reply db' out u = u
  Unchanged-Allowed (article_url pk) post body db reply db' out u = u
  Unchanged-Allowed (article_url pk) put body db reply db' out u = cc
  Unchanged-Allowed (article_url pk) delete body db reply db' out u = cc
  Unchanged-Allowed (article_url pk) options body db reply db' out u = u
  Unchanged-Allowed (article_url pk) trace body db reply db' out u = u
  Unchanged-Allowed (article_url pk) other body db reply db' out u = u
  Unchanged-Allowed (comment_url pk) get body db reply db' out u = cc
  Unchanged-Allowed (comment_url pk) head body db reply db' out u = u
  Unchanged-Allowed (comment_url pk) post body db reply db' out u = u
  Unchanged-Allowed (comment_url pk) put body db reply db' out u = cc
  Unchanged-Allowed (comment_url pk) delete body db reply db' out u = cc
  Unchanged-Allowed (comment_url pk) options body db reply db' out u = u
  Unchanged-Allowed (comment_url pk) trace body db reply db' out u = u
  Unchanged-Allowed (comment_url pk) other body db reply db' out u = u
  Unchanged-Allowed (article_comments_url pk) get body db reply db' out u = u
  Unchanged-Allowed (article_comments_url pk) head body db reply db' out u = u
  Unchanged-Allowed (article_comments_url pk) post body db reply db' out u = cc
  Unchanged-Allowed (article_comments_url pk) put body db reply db' out u = u
  Unchanged-Allowed (article_comments_url pk) delete body db reply db' out u = u
  Unchanged-Allowed (article_comments_url pk) options body db reply db' out u = u
  Unchanged-Allowed (article_comments_url pk) trace body db reply db' out u = u
  Unchanged-Allowed (article_comments_url pk) other body db reply db' out u = u

module _ (dj : Backend) (drf : Framework (Store dj) Content) (store : Store dj) where
  open dj use {Body, articles, comments, article_valid, comment_valid}

  under_api_view :
      (route : Route) (m : Method) (body : Body) (view : Store dj → Answer dj drf)
      → (is_in m (methods route) ≡ true → Gives dj drf store (Allowed dj route m body) (view store))
      → Gives dj drf store (Allowed dj route m body) (drf.api_view (methods route) m view store)
  under_api_view route m body view h = elim (Bool-cases (is_in m (methods route))) [
    | inl here ↦
        subst (Gives dj drf store (Allowed dj route m body))
          (sym (drf.method_in (methods route) m view store here)) (h here)
    | inr out ↦ Unchanged-Allowed dj route m body (db_of dj store) _ _ out (
        subst (λ s. Unchanged (db_of dj store) (db_of dj s))
          (sym (drf.method_out (methods route) m view store out)) (stays (db_of dj store)))
  ]

  cr_body-Allowed :
      (m : Method) (body : Body)
      → is_in m (methods articles_url) ≡ true
      → Gives dj drf store
          (Allowed dj articles_url m body)
          (article_cr_body dj drf m (asks dj drf m body) store)
  unfolding article_cr_body is_in same_method
  cr_body-Allowed get body e = list_articles-Listed dj drf store _ refl
  cr_body-Allowed post body e = post_article-Created dj drf store (article_valid body)
  cr_body-Allowed head body e = cc
  cr_body-Allowed put body e = cc
  cr_body-Allowed delete body e = cc
  cr_body-Allowed options body e = cc
  cr_body-Allowed trace body e = cc
  cr_body-Allowed other body e = cc

  create_body-Allowed :
      (pk : ℕ) (m : Method) (body : Body)
      → is_in m (methods (article_comments_url pk)) ≡ true
      → Gives dj drf store
          (Allowed dj (article_comments_url pk) m body)
          (post_comment dj drf (articles.find pk store.article_rows) (comment_valid body) pk store)
  unfolding is_in same_method
  create_body-Allowed pk post body e = post_comment-Commented dj drf store _ _ pk
  create_body-Allowed pk get body e = cc
  create_body-Allowed pk head body e = cc
  create_body-Allowed pk put body e = cc
  create_body-Allowed pk delete body e = cc
  create_body-Allowed pk options body e = cc
  create_body-Allowed pk trace body e = cc
  create_body-Allowed pk other body e = cc

  -- Each view does what the promise says of its URL.
  serve-Allowed :
      (route : Route) (m : Method) (body : Body)
      → Allowed dj route m body
          (db_of dj store)
          (serve dj drf route (asks dj drf m body) store).0
          (db_of dj (serve dj drf route (asks dj drf m body) store).1)
  unfolding serve article_cr article_rud comment_detail comment_create
  serve-Allowed articles_url m body = under_api_view articles_url m body _ (cr_body-Allowed m body)
  serve-Allowed (article_url pk) m body =
      under_api_view (article_url pk) m body _ (λ here. rud-ForArticle dj drf store m body pk _)
  serve-Allowed (comment_url pk) m body =
      under_api_view (comment_url pk) m body _ (λ here. found-ForComment dj drf store m body pk _)
  serve-Allowed (article_comments_url pk) m body =
      under_api_view (article_comments_url pk) m body _ (create_body-Allowed pk m body)

module _ (dj : Backend) (drf : Framework (Store dj) Content) {Admin : Type 0}
    (django : Resolver (Served Admin Route)) (admin : Text → Option Admin)
    (admin_view : Admin → Request dj → Store dj → Answer dj drf) where
  -- Whatever the tables are: the answer to a request for the path of a view, and the articles and
  -- comments that are stored after it, are as the promise says of those stored before. So a list
  -- shows all articles and no others, an article that is created gets a free key, one that is
  -- deleted takes its own comments along and nothing else, and an error changes nothing.
  pub dispatch-Allowed :
      (route : Route) (text : Text) (m : Method) (body : dj.Body) (store : Store dj)
      → IsAddress route text
      → let (reply, store') =
          dispatch dj drf django admin admin_view text (asks dj drf m body) store in
        Allowed dj route m body (db_of dj store) reply (db_of dj store')
  unfolding dispatch
  dispatch-Allowed route text m body store h =
      subst
        (λ o.
          Gives dj drf store (Allowed dj route m body)
            (answer dj drf django admin admin_view o (asks dj drf m body) store))
        (sym ((resolve_articles-IsAddress django admin route text).1 h))
        (unfold answer in serve-Allowed dj drf store route m body)
