-- ===== src/Api/Articles/Exchange.antt =====
-- Pairs of requests to the article interface of 2022/DB/1017.
use til.Prelude.{ℕ, ◌≡◌, refl, ap, ◌∙◌, Option, none, some, arith}
use til.Django.{Method, get, post, delete, is_in, same_method}
use til.Django.Tables.{insert_self}
use til.Api.{ok_200, created_201, no_content_204, not_found_404, Framework}
use til.Api.Articles.{
  Text, Article, Comment, Backend, Content, Store, Request, show_article, delete_article,
  post_article, article_cr_body, article_cr, article_rud_found, article_rud, comment_found,
  comment_detail,
}

module _ (dj : Backend) (drf : Framework (Store dj) Content) where
  open dj use {Body, articles, comments, article_valid, comment_valid}

  abbrev pub asks : Method → Body → Request dj
  asks m body = record { method = m; body = body }

  get_found :
      (body : Body) (pk : ℕ) (store : Store dj) (o : Option Article)
      → articles.find pk store.article_rows ≡ o
      → article_rud dj drf (asks get body) pk store
        ≡ article_rud_found dj drf get (asks get body) pk o store
  unfolding article_rud is_in same_method
  get_found body pk store o e =
      drf.method_in _ get _ store refl
      ∙ ap (λ x. article_rud_found dj drf get (asks get body) pk x store) e

  -- A valid article that is posted is answered by 201 and its data, and the same data is then read
  -- under the new key.
  article_rud-article_cr :
      (body any : Body) (title content : Text) (store : Store dj)
      → article_valid body ≡ some (title, content)
      → (pk : ℕ) × (store' : Store dj) × (article_cr dj drf (asks post body) store ≡ (
        created_201 (show_article dj pk (record { title = title; content = content }) store'),
        store',
      ))
        × (article_rud dj drf (asks get any) pk store' ≡ (
          ok_200 (show_article dj pk (record { title = title; content = content }) store'),
          store',
        ))
  unfolding article_cr article_cr_body post_article is_in same_method article_rud_found
  article_rud-article_cr body any title content store valid =
      let a : Article = record { title = title; content = content } in
      let (pk, rows) = articles.insert a store.article_rows in
      let store' : Store dj = record store { article_rows = rows } in
      (
        pk,
        store',
        drf.method_in _ post _ store refl ∙ ap (λ x. post_article dj drf x store) valid,
        get_found any pk store' (some a) (insert_self articles a store.article_rows),
      )

  -- After an article is deleted, reading it answers 404, and so does reading a comment that stood
  -- under it.
  article_rud-delete :
      (body any : Body) (pk k : ℕ) (a : Article) (c : Comment) (store : Store dj)
      → articles.find pk store.article_rows ≡ some a
      → comments.find k store.comment_rows ≡ some c
      → c.article ≡ pk
      → (store' : Store dj) × (article_rud dj drf (asks delete body) pk store
          ≡ (no_content_204 pk, store'))
        × (article_rud dj drf (asks get any) pk store' ≡ (not_found_404, store'))
        × (comment_detail dj drf (asks get any) k store' ≡ (not_found_404, store'))
  unfolding article_rud article_rud_found comment_detail comment_found delete_article is_in
      same_method
  article_rud-delete body any pk k a c store found placed under =
      let store' : Store dj = delete_article dj pk store in
      let gone : comments.find k store'.comment_rows ≡ none =
        comments.find-remove k _ store.comment_rows ∙ rw placed (ground arith) in
      (
        store',
        drf.method_in _ delete _ store refl
            ∙ ap (λ x. article_rud_found dj drf delete (asks delete body) pk x store) found,
        get_found any pk store' none
            (articles.find-remove pk _ store.article_rows ∙ rw found (ground arith)),
        drf.method_in _ get _ store' refl
            ∙ ap (λ x. comment_found dj drf get (asks get any) k x store') gone,
      )
