-- ===== src/Api/Articles/Promise/Kept.antt =====
-- The handlers of the article interface keep its promise.
use mathlib.Core.List.Memᴰ
use mathlib.Core.List.{Memᴰ}
use til.Prelude.{
  ℕ, ◌≡◌, refl, subst, ◌∙◌, Bool, true, false, Option, none, some, List, [], ◌∷◌, ◌==◌,
  if◌then◌else◌, inl, inr, Option-cases,
}
use til.Django.{Method, get, head, post, put, delete, options, trace, other, kept}
use til.Api.{Reply, Framework}
use til.Api.Articles.{
  Text, Article, Comment, Backend, Content, Store, delete_article, show_list, Answer, list_articles,
  post_article, put_article, article_rud_found, put_comment, comment_found, post_comment,
}
use til.Api.Articles.Exchange.{asks}
use til.Api.Articles.Promise.{
  Db, Unchanged, IsListing, Listed, Created, Replaced, Commented, Edited, db_of, ForArticle,
  ForComment,
}
use til.Api.Articles.Promise.Queries.{show_list-IsListing, show_article-Shows}

pub stays : (db : Db) → Unchanged db db
stays db = record { articles_same = λ k. refl; comments_same = λ k. refl }

-- What is left when the row of one key goes.
kept_key : {Row : Type 0} (b : Bool) (o : Option Row) → kept (λ a. b) o ≡ (if b then none else o)
kept_key true none = refl
kept_key false none = refl
kept_key true (some a) = refl
kept_key false (some a) = refl

module _ (dj : Backend) (drf : Framework (Store dj) Content) (store : Store dj) where
  open dj use {Body, articles, comments, article_valid, comment_valid}

  -- The answer of a handler as what a relation on databases says.
  abbrev pub Gives : (Db → Reply Content → Db → Type 0) → Answer dj drf → Type 0
  Gives P answer = P (db_of dj store) answer.0 (db_of dj answer.1)

  pub list_articles-Listed :
      (l : List (ℕ × Article))
      → articles.select (λ k a. true) store.article_rows ≡ l
      → Gives (λ db reply db'. Listed db reply × Unchanged db db') (list_articles dj drf l store)
  unfolding list_articles
  list_articles-Listed [] e = (
    inl (
      λ k. elim (Option-cases (articles.find k store.article_rows)) [
        | inl nothing ↦ nothing
        | inr (a, there) ↦ absurd (
            Memᴰ.not-nil (
              subst (λ l. Memᴰ (k, a) l) e
                ((articles.select_iff k a (λ j x. true) store.article_rows).1 (there, refl))))
      ],
      refl,
    ),
    stays (db_of dj store),
  )
  list_articles-Listed (row ∷ l) e = (
    inr (
      show_list dj (row ∷ l),
      λ empty. cc,
      refl,
      subst (λ x. IsListing (db_of dj store) (show_list dj x)) e (show_list-IsListing dj store),
    ),
    stays (db_of dj store),
  )

  pub post_article-Created :
      (form : Option (Text × Text)) → Gives (Created form) (post_article dj drf form store)
  unfolding post_article
  post_article-Created none = (refl, stays (db_of dj store))
  post_article-Created (some (title, content)) =
      let a : Article = record { title = title; content = content } in
      let (pk, rows) = articles.insert a store.article_rows in
      let store' : Store dj = record store { article_rows = rows } in
      (
        pk,
        articles.insert_fresh a store.article_rows,
        λ k. articles.find-insert k a store.article_rows,
        λ k. refl,
        (_, refl, show_article-Shows dj pk a store'),
      )

  put_article-Replaced :
      (form : Option (Text × Text)) (pk : ℕ)
      → Gives (Replaced form pk) (put_article dj drf form pk store)
  unfolding put_article
  put_article-Replaced none pk = (refl, stays (db_of dj store))
  put_article-Replaced (some (title, content)) pk =
      let a : Article = record { title = title; content = content } in
      let store' : Store dj = record store {
        article_rows = articles.update pk a store.article_rows;
      } in
      (
        λ k. articles.find-update k pk a store.article_rows,
        λ k. refl,
        (_, refl, show_article-Shows dj pk a store'),
      )

  pub rud-ForArticle :
      (m : Method) (body : Body) (pk : ℕ) (o : Option Article)
      → Gives
          (ForArticle dj m body pk o)
          (article_rud_found dj drf m (asks dj drf m body) pk o store)
  unfolding article_rud_found delete_article
  rud-ForArticle get body pk none = (refl, stays (db_of dj store))
  rud-ForArticle put body pk none = (refl, stays (db_of dj store))
  rud-ForArticle delete body pk none = (refl, stays (db_of dj store))
  rud-ForArticle post body pk none = stays (db_of dj store)
  rud-ForArticle head body pk none = stays (db_of dj store)
  rud-ForArticle options body pk none = stays (db_of dj store)
  rud-ForArticle trace body pk none = stays (db_of dj store)
  rud-ForArticle other body pk none = stays (db_of dj store)
  rud-ForArticle get body pk (some a) =
      ((_, refl, show_article-Shows dj pk a store), stays (db_of dj store))
  rud-ForArticle put body pk (some a) = put_article-Replaced (article_valid body) pk
  rud-ForArticle delete body pk (some a) = (
    refl,
    λ k. articles.find-remove k _ store.article_rows ∙ kept_key (k == pk) _,
    λ k. comments.find-remove k _ store.comment_rows,
  )
  rud-ForArticle post body pk (some a) = stays (db_of dj store)
  rud-ForArticle head body pk (some a) = stays (db_of dj store)
  rud-ForArticle options body pk (some a) = stays (db_of dj store)
  rud-ForArticle trace body pk (some a) = stays (db_of dj store)
  rud-ForArticle other body pk (some a) = stays (db_of dj store)

  put_comment-Edited :
      (form : Option Text) (pk : ℕ) (c : Comment)
      → Gives (Edited form pk c) (put_comment dj drf form pk c store)
  unfolding put_comment
  put_comment-Edited none pk c = (refl, stays (db_of dj store))
  put_comment-Edited (some content) pk c =
      (refl, λ k. comments.find-update k pk _ store.comment_rows, λ k. refl)

  pub found-ForComment :
      (m : Method) (body : Body) (pk : ℕ) (o : Option Comment)
      → Gives (ForComment dj m body pk o) (comment_found dj drf m (asks dj drf m body) pk o store)
  unfolding comment_found
  found-ForComment get body pk none = (refl, stays (db_of dj store))
  found-ForComment put body pk none = (refl, stays (db_of dj store))
  found-ForComment delete body pk none = (refl, stays (db_of dj store))
  found-ForComment post body pk none = stays (db_of dj store)
  found-ForComment head body pk none = stays (db_of dj store)
  found-ForComment options body pk none = stays (db_of dj store)
  found-ForComment trace body pk none = stays (db_of dj store)
  found-ForComment other body pk none = stays (db_of dj store)
  found-ForComment get body pk (some c) = (refl, stays (db_of dj store))
  found-ForComment put body pk (some c) = put_comment-Edited (comment_valid body) pk c
  found-ForComment delete body pk (some c) =
      (refl, λ k. comments.find-remove k _ store.comment_rows ∙ kept_key (k == pk) _, λ k. refl)
  found-ForComment post body pk (some c) = stays (db_of dj store)
  found-ForComment head body pk (some c) = stays (db_of dj store)
  found-ForComment options body pk (some c) = stays (db_of dj store)
  found-ForComment trace body pk (some c) = stays (db_of dj store)
  found-ForComment other body pk (some c) = stays (db_of dj store)

  pub post_comment-Commented :
      (o : Option Article) (form : Option Text) (pk : ℕ)
      → Gives (Commented o form pk) (post_comment dj drf o form pk store)
  unfolding post_comment
  post_comment-Commented none form pk = (refl, stays (db_of dj store))
  post_comment-Commented (some a) none pk = (refl, stays (db_of dj store))
  post_comment-Commented (some a) (some content) pk = (
    _,
    comments.insert_fresh _ store.comment_rows,
    refl,
    λ k. comments.find-insert k _ store.comment_rows,
    λ k. refl,
  )
