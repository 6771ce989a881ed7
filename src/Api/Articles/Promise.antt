-- ===== src/Api/Articles/Promise.antt =====
-- What the article interface of 2022/DB/1017 promises, in terms of which article and which comment
-- has which key, whatever the tables are.
use mathlib.Core.List.{Memᴰ}
use til.Prelude.{ℕ, ◌≡◌, ◌≢◌, ◌↔◌, ◌⊎◌, Option, none, some, List, [], length, ◌==◌, if◌then◌else◌}
use til.Django.{Method, get, post, put, delete, kept}
use til.Api.{
  Reply, ok_200, created_201, no_content_204, bad_request_400, not_found_404, server_error,
}
use til.Api.Articles.{
  Text, Article, Comment, Backend, Content, article_list, article_data, comment_data, Store, Route,
  articles_url, article_url, comment_url, article_comments_url,
}
pub mod Queries
pub mod Kept
pub mod Served

pub record Db : Type 0 where
  pub article : ℕ → Option Article
  pub comment : ℕ → Option Comment

pub record Unchanged (db db' : Db) : Type 0 where
  pub articles_same : (k : ℕ) → db'.article k ≡ db.article k
  pub comments_same : (k : ℕ) → db'.comment k ≡ db.comment k

-- Keys with titles: those of the articles, and no others.
abbrev pub IsListing : Db → List (ℕ × Text) → Type 0
IsListing db l =
    (k : ℕ) (t : Text) → Memᴰ (k, t) l ↔ ((a : Article) × (db.article k ≡ some a) × (a.title ≡ t))

-- The keys of the comments under an article.
abbrev pub IsCommentSet : Db → ℕ → List ℕ → Type 0
IsCommentSet db pk l =
    (k : ℕ) → Memᴰ k l ↔ ((c : Comment) × (db.comment k ≡ some c) × (c.article ≡ pk))

abbrev pub Shows : Db → ℕ → Article → Content → Type 0
Shows db pk a shown =
    (l : List ℕ) × IsCommentSet db pk l × (shown ≡ article_data pk a.title a.content l (length l))

-- All articles, or 404 if there are none.
abbrev pub Listed : Db → Reply Content → Type 0
Listed db reply =
    (((k : ℕ) → db.article k ≡ none) × (reply ≡ not_found_404))
    ⊎ ((l : List (ℕ × Text)) × (l ≢ []) × (reply ≡ ok_200 (article_list l)) × IsListing db l)

-- A row under a key that was free.
abbrev pub Created : Option (Text × Text) → Db → Reply Content → Db → Type 0
Created none db reply db' = (reply ≡ bad_request_400) × Unchanged db db'
Created (some (title, content)) db reply db' =
    let a : Article = record { title = title; content = content } in
    (pk : ℕ) × (db.article pk ≡ none)
    × ((k : ℕ) → db'.article k ≡ (if k == pk then some a else db.article k))
    × ((k : ℕ) → db'.comment k ≡ db.comment k)
    × ((shown : Content) × (reply ≡ created_201 shown) × Shows db' pk a shown)

abbrev pub Replaced : Option (Text × Text) → ℕ → Db → Reply Content → Db → Type 0
Replaced none pk db reply db' = (reply ≡ bad_request_400) × Unchanged db db'
Replaced (some (title, content)) pk db reply db' =
    let a : Article = record { title = title; content = content } in
    ((k : ℕ) → db'.article k ≡ (if k == pk then some a else db.article k))
    × ((k : ℕ) → db'.comment k ≡ db.comment k)
    × ((shown : Content) × (reply ≡ ok_200 shown) × Shows db' pk a shown)

-- The article is gone, and with it the comments under it, and nothing else.
abbrev pub Deleted : ℕ → Db → Reply Content → Db → Type 0
Deleted pk db reply db' =
    (reply ≡ no_content_204 pk)
    × ((k : ℕ) → db'.article k ≡ (if k == pk then none else db.article k))
    × ((k : ℕ) → db'.comment k ≡ kept (λ c. c.article == pk) (db.comment k))

abbrev pub Commented : Option Article → Option Text → ℕ → Db → Reply Content → Db → Type 0
Commented none form pk db reply db' = (reply ≡ server_error) × Unchanged db db'
Commented (some a) none pk db reply db' = (reply ≡ bad_request_400) × Unchanged db db'
Commented (some a) (some content) pk db reply db' =
    (id : ℕ) × (db.comment id ≡ none)
    × (reply ≡ created_201 (comment_data id pk content))
    × ((k : ℕ)
        → db'.comment k
          ≡ (if k == id then some (record { article = pk; content = content }) else db.comment k))
    × ((k : ℕ) → db'.article k ≡ db.article k)

-- Its article stays the same.
abbrev pub Edited : Option Text → ℕ → Comment → Db → Reply Content → Db → Type 0
Edited none pk c db reply db' = (reply ≡ bad_request_400) × Unchanged db db'
Edited (some content) pk c db reply db' =
    (reply ≡ ok_200 (comment_data pk c.article content))
    × ((k : ℕ)
        → db'.comment k ≡ (
            if k == pk
            then some (record { article = c.article; content = content })
            else db.comment k))
    × ((k : ℕ) → db'.article k ≡ db.article k)

abbrev pub Withdrawn : ℕ → Db → Reply Content → Db → Type 0
Withdrawn pk db reply db' =
    (reply ≡ no_content_204 pk)
    × ((k : ℕ) → db'.comment k ≡ (if k == pk then none else db.comment k))
    × ((k : ℕ) → db'.article k ≡ db.article k)

module _ (dj : Backend) where
  open dj use {Body, articles, comments, article_valid, comment_valid}

  abbrev pub db_of : Store dj → Db
  db_of store = record {
    article = λ k. articles.find k store.article_rows;
    comment = λ k. comments.find k store.comment_rows;
  }

  abbrev pub ForArticle : Method → Body → ℕ → Option Article → Db → Reply Content → Db → Type 0
  ForArticle get body pk none db reply db' = (reply ≡ not_found_404) × Unchanged db db'
  ForArticle put body pk none db reply db' = (reply ≡ not_found_404) × Unchanged db db'
  ForArticle delete body pk none db reply db' = (reply ≡ not_found_404) × Unchanged db db'
  ForArticle get body pk (some a) db reply db' =
      ((shown : Content) × (reply ≡ ok_200 shown) × Shows db pk a shown) × Unchanged db db'
  ForArticle put body pk (some a) db reply db' = Replaced (article_valid body) pk db reply db'
  ForArticle delete body pk (some a) db reply db' = Deleted pk db reply db'
  ForArticle _ body pk o db reply db' = Unchanged db db'

  abbrev pub ForComment : Method → Body → ℕ → Option Comment → Db → Reply Content → Db → Type 0
  ForComment get body pk none db reply db' = (reply ≡ not_found_404) × Unchanged db db'
  ForComment put body pk none db reply db' = (reply ≡ not_found_404) × Unchanged db db'
  ForComment delete body pk none db reply db' = (reply ≡ not_found_404) × Unchanged db db'
  ForComment get body pk (some c) db reply db' =
      (reply ≡ ok_200 (comment_data pk c.article c.content)) × Unchanged db db'
  ForComment put body pk (some c) db reply db' = Edited (comment_valid body) pk c db reply db'
  ForComment delete body pk (some c) db reply db' = Withdrawn pk db reply db'
  ForComment _ body pk o db reply db' = Unchanged db db'

  -- The answer that a request may have, and what it may do. A method that a URL does not take
  -- changes nothing.
  abbrev pub Allowed : Route → Method → Body → Db → Reply Content → Db → Type 0
  Allowed articles_url get body db reply db' = Listed db reply × Unchanged db db'
  Allowed articles_url post body db reply db' = Created (article_valid body) db reply db'
  Allowed articles_url _ body db reply db' = Unchanged db db'
  Allowed (article_url pk) m body db reply db' = ForArticle m body pk (db.article pk) db reply db'
  Allowed (comment_url pk) m body db reply db' = ForComment m body pk (db.comment pk) db reply db'
  Allowed (article_comments_url pk) post body db reply db' =
      Commented (db.article pk) (comment_valid body) pk db reply db'
  Allowed (article_comments_url pk) _ body db reply db' = Unchanged db db'
