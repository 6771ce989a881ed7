-- ===== src/Api/Articles.antt =====
-- 2022/DB/1017: models.py, serializers.py, views.py and urls.py of `articles`. The time stamps of
-- the rows are left out.
use til.Prelude.{ℕ, ◌≡◌, ◌≤◌, true, Option, none, some, List, [], ◌∷◌, map, length, ◌==◌}
use til.Django.{Method, get, post, put, delete, Table}
use til.Api.{
  Reply, ok_200, created_201, no_content_204, bad_request_400, not_found_404, server_error,
  Framework,
}
pub mod Stored
pub mod Exchange
pub mod Routing
pub mod Promise

abbrev pub Text : Type 0
Text = List ℕ

pub record Article : Type 0 where
  pub title : Text
  pub content : Text

pub record Comment : Type 0 where
  pub article : ℕ
  pub content : Text

-- `max_length` of `Article.title`
abbrev pub title_max : ℕ
title_max = 200

-- The tables, and the serializers as what `is_valid` leaves in `validated_data`, or `none`. The
-- validators of a model serializer are those of the model's fields, the length among them. In the
-- CommentSerializer `article` is read-only.
pub record Backend : Type 1 where
  pub Body : Type 0
  pub articles : Table Article
  pub comments : Table Comment
  pub article_valid : Body → Option (Text × Text)
  pub article_valid_fits :
      (body : Body) (title content : Text)
      → article_valid body ≡ some (title, content)
      → length title ≤ title_max
  pub comment_valid : Body → Option Text

-- What the serializers show.
pub data Content : Type 0 where
  article_list : List (ℕ × Text) → Content
  article_data :
      (id : ℕ) (title content : Text) (comment_set : List ℕ) (comment_count : ℕ) → Content
  comment_data : (id article : ℕ) (content : Text) → Content

module _ (dj : Backend) where
  open dj use {Body, articles, comments}

  pub record Store : Type 0 where
    pub article_rows : articles.Rows
    pub comment_rows : comments.Rows

  pub record Request : Type 0 where
    pub method : Method
    pub body : Body

  -- `comment_set`: the primary keys of the comments of an article.
  unfoldable pub comment_set : ℕ → Store → List ℕ
  comment_set pk store =
      map (λ row. row.0) (comments.select (λ k c. c.article == pk) store.comment_rows)

  -- ArticleSerializer
  unfoldable pub show_article : ℕ → Article → Store → Content
  unfolding comment_set
  show_article pk a store =
      article_data pk a.title a.content (comment_set pk store) (length (comment_set pk store))

  -- ArticleListSerializer
  abbrev pub show_list : List (ℕ × Article) → List (ℕ × Text)
  show_list rows = map (λ row. (row.0, row.1.title)) rows

  -- CommentSerializer
  abbrev pub show_comment : ℕ → Comment → Content
  show_comment pk c = comment_data pk c.article c.content

  -- `on_delete=models.CASCADE` of `Comment.article`.
  unfoldable pub delete_article : ℕ → Store → Store
  delete_article pk store = record {
    article_rows = articles.remove (λ k a. k == pk) store.article_rows;
    comment_rows = comments.remove (λ k c. c.article == pk) store.comment_rows;
  }

-- urls.py
pub data Route : Type 0 where
  articles_url : Route
  article_url comment_url article_comments_url : ℕ → Route

module _ (dj : Backend) (drf : Framework (Store dj) Content) where
  open dj use {articles, comments, article_valid, comment_valid}
  open drf use {api_view}

  abbrev pub Answer : Type 0
  Answer = Reply Content × Store dj

  -- `get_list_or_404`
  unfoldable pub list_articles : List (ℕ × Article) → Store dj → Answer
  list_articles [] store = (not_found_404, store)
  list_articles (row ∷ rows) store = (ok_200 (article_list (show_list dj (row ∷ rows))), store)

  unfoldable pub post_article : Option (Text × Text) → Store dj → Answer
  unfolding show_article
  post_article none store = (bad_request_400, store)
  post_article (some (title, content)) store =
      let a : Article = record { title = title; content = content } in
      let (pk, rows) = articles.insert a store.article_rows in
      let store' : Store dj = record store { article_rows = rows } in
      (created_201 (show_article dj pk a store'), store')

  unfoldable pub article_cr_body : Method → Request dj → Store dj → Answer
  unfolding list_articles post_article
  article_cr_body get r store =
      list_articles (articles.select (λ k a. true) store.article_rows) store
  article_cr_body post r store = post_article (article_valid r.body) store
  article_cr_body _ r store = (server_error, store)

  unfoldable pub article_cr : Request dj → Store dj → Answer
  unfolding article_cr_body
  article_cr r = api_view (get ∷ post ∷ []) r.method (article_cr_body r.method r)

  unfoldable pub put_article : Option (Text × Text) → ℕ → Store dj → Answer
  unfolding show_article
  put_article none pk store = (bad_request_400, store)
  put_article (some (title, content)) pk store =
      let a : Article = record { title = title; content = content } in
      let store' : Store dj = record store {
        article_rows = articles.update pk a store.article_rows;
      } in
      (ok_200 (show_article dj pk a store'), store')

  unfoldable pub article_rud_found : Method → Request dj → ℕ → Option Article → Store dj → Answer
  unfolding show_article put_article delete_article
  article_rud_found m r pk none store = (not_found_404, store)
  article_rud_found get r pk (some a) store = (ok_200 (show_article dj pk a store), store)
  article_rud_found put r pk (some a) store = put_article (article_valid r.body) pk store
  article_rud_found delete r pk (some a) store = (no_content_204 pk, delete_article dj pk store)
  article_rud_found _ r pk (some a) store = (server_error, store)

  unfoldable pub article_rud : Request dj → ℕ → Store dj → Answer
  unfolding article_rud_found
  article_rud r pk =
      api_view (get ∷ put ∷ delete ∷ []) r.method
        λ store. article_rud_found r.method r pk (articles.find pk store.article_rows) store

  -- The serializer's `save()` over the comment; its article is kept.
  unfoldable pub put_comment : Option Text → ℕ → Comment → Store dj → Answer
  put_comment none pk c store = (bad_request_400, store)
  put_comment (some content) pk c store =
      let c' = record c { content = content } in
      (
        ok_200 (show_comment dj pk c'),
        record store { comment_rows = comments.update pk c' store.comment_rows },
      )

  unfoldable pub comment_found : Method → Request dj → ℕ → Option Comment → Store dj → Answer
  unfolding put_comment
  comment_found m r pk none store = (not_found_404, store)
  comment_found get r pk (some c) store = (ok_200 (show_comment dj pk c), store)
  comment_found put r pk (some c) store = put_comment (comment_valid r.body) pk c store
  comment_found delete r pk (some c) store = (
    no_content_204 pk,
    record store { comment_rows = comments.remove (λ k x. k == pk) store.comment_rows },
  )
  comment_found _ r pk (some c) store = (server_error, store)

  unfoldable pub comment_detail : Request dj → ℕ → Store dj → Answer
  unfolding comment_found
  comment_detail r pk =
      api_view (get ∷ delete ∷ put ∷ []) r.method
        λ store. comment_found r.method r pk (comments.find pk store.comment_rows) store

  -- `Article.objects.get` raises DoesNotExist, which is no 404.
  unfoldable pub post_comment : Option Article → Option Text → ℕ → Store dj → Answer
  post_comment none form pk store = (server_error, store)
  post_comment (some a) none pk store = (bad_request_400, store)
  post_comment (some a) (some content) pk store =
      let c : Comment = record { article = pk; content = content } in
      let (id, rows) = comments.insert c store.comment_rows in
      (created_201 (show_comment dj id c), record store { comment_rows = rows })

  unfoldable pub comment_create : Request dj → ℕ → Store dj → Answer
  unfolding post_comment
  comment_create r pk =
      api_view (post ∷ []) r.method
        λ store. post_comment (articles.find pk store.article_rows) (comment_valid r.body) pk store

  unfoldable pub serve : Route → Request dj → Store dj → Answer
  serve articles_url r = article_cr r
  serve (article_url pk) r = article_rud r pk
  serve (comment_url pk) r = comment_detail r pk
  serve (article_comments_url pk) r = comment_create r pk
