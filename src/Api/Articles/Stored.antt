-- ===== src/Api/Articles/Stored.antt =====
-- The database invariant of the article interface of 2022/DB/1017.
use til.Prelude.{
  length, ◌≤◌, ℕ, ◌≡◌, refl, sym, subst, Option, none, some, List, [], ◌∷◌, Bool-cases, inl, inr,
}
use til.Django.{Method, get, head, post, put, delete, options, trace, other, is_in}
use til.Django.Tables.{
  insert_keeps, insert_cases, update_keeps, update_cases, remove_cases, remove_keeps,
}
use til.Api.{Framework}
use til.Api.Articles.{
  Text, title_max, Article, Comment, Backend, Content, Store, Request, delete_article, Answer,
  list_articles, post_article, article_cr_body, article_cr, put_article, article_rud_found,
  article_rud, put_comment, comment_found, comment_detail, post_comment, comment_create, Route,
  articles_url, article_url, comment_url, article_comments_url, serve,
}

module _ (dj : Backend) where
  open dj use {articles, comments}

  pub record IsConsistent (store : Store dj) : Type 0 where
    pub subject :
        (k : ℕ) (c : Comment)
        → comments.find k store.comment_rows ≡ some c
        → (a : Article) × (articles.find c.article store.article_rows ≡ some a)
    pub title_fits :
        (k : ℕ) (a : Article)
        → articles.find k store.article_rows ≡ some a
        → length a.title ≤ title_max

module _ (dj : Backend) (drf : Framework (Store dj) Content) where
  open dj use {articles, comments, article_valid, article_valid_fits}

  abbrev Keeps : Answer dj drf → Type 0
  Keeps answer = IsConsistent dj answer.1

  -- A view under its decorator.
  api_view-Keeps :
      (ms : List Method) (m : Method) (view : Store dj → Answer dj drf) (store : Store dj)
      → IsConsistent dj store
      → Keeps (view store)
      → Keeps (drf.api_view ms m view store)
  api_view-Keeps ms m view store h p = elim (Bool-cases (is_in m ms)) [
    | inl here ↦ subst Keeps (sym (drf.method_in ms m view store here)) p
    | inr out ↦ subst (IsConsistent dj) (sym (drf.method_out ms m view store out)) h
  ]

  module _ (store : Store dj) (h : IsConsistent dj store) where
    list_articles-Keeps : (l : List (ℕ × Article)) → Keeps (list_articles dj drf l store)
    unfolding list_articles
    list_articles-Keeps [] = h
    list_articles-Keeps (row ∷ rows) = h

    post_article-Keeps :
        (form : Option (Text × Text))
        → ((title content : Text) → form ≡ some (title, content) → length title ≤ title_max)
        → Keeps (post_article dj drf form store)
    unfolding post_article
    post_article-Keeps none fits = h
    post_article-Keeps (some (title, content)) fits = record {
      subject = λ k c e.
          let (a, found) = h.subject k c e in
          (a, insert_keeps articles c.article _ a store.article_rows found);
      title_fits = λ k a e. elim (insert_cases articles k _ a store.article_rows e) [
        | inl new ↦ rw new (fits title content refl)
        | inr old ↦ h.title_fits k a old
      ];
    }

    cr_body-Keeps : (m : Method) (r : Request dj) → Keeps (article_cr_body dj drf m r store)
    unfolding article_cr_body
    cr_body-Keeps get r = list_articles-Keeps _
    cr_body-Keeps post r = post_article-Keeps (article_valid r.body) (article_valid_fits r.body)
    cr_body-Keeps head r = h
    cr_body-Keeps put r = h
    cr_body-Keeps delete r = h
    cr_body-Keeps options r = h
    cr_body-Keeps trace r = h
    cr_body-Keeps other r = h

    put_article-Keeps :
        (form : Option (Text × Text)) (pk : ℕ)
        → ((title content : Text) → form ≡ some (title, content) → length title ≤ title_max)
        → Keeps (put_article dj drf form pk store)
    unfolding put_article
    put_article-Keeps none pk fits = h
    put_article-Keeps (some (title, content)) pk fits = record {
      subject = λ k c e.
          let (a, found) = h.subject k c e in
          update_keeps articles c.article pk _ a store.article_rows found;
      title_fits = λ k a e. elim (update_cases articles k pk _ a store.article_rows e) [
        | inl (_, new) ↦ rw new (fits title content refl)
        | inr old ↦ h.title_fits k a old
      ];
    }

    delete_article-Keeps : (pk : ℕ) → IsConsistent dj (delete_article dj pk store)
    unfolding delete_article
    delete_article-Keeps pk = record {
      subject = λ k c e.
          let (old, elsewhere) = remove_cases comments k _ c store.comment_rows e in
          let (a, found) = h.subject k c old in
          (a, remove_keeps articles c.article _ a store.article_rows found elsewhere);
      title_fits = λ k a e. h.title_fits k a (remove_cases articles k _ a store.article_rows e).0;
    }

    rud-Keeps :
        (m : Method) (r : Request dj) (pk : ℕ) (o : Option Article)
        → Keeps (article_rud_found dj drf m r pk o store)
    unfolding article_rud_found
    rud-Keeps m r pk none = h
    rud-Keeps get r pk (some a) = h
    rud-Keeps put r pk (some a) =
        put_article-Keeps (article_valid r.body) pk (article_valid_fits r.body)
    rud-Keeps delete r pk (some a) = delete_article-Keeps pk
    rud-Keeps post r pk (some a) = h
    rud-Keeps head r pk (some a) = h
    rud-Keeps options r pk (some a) = h
    rud-Keeps trace r pk (some a) = h
    rud-Keeps other r pk (some a) = h

    put_comment-Keeps :
        (form : Option Text) (pk : ℕ) (c : Comment)
        → comments.find pk store.comment_rows ≡ some c
        → Keeps (put_comment dj drf form pk c store)
    unfolding put_comment
    put_comment-Keeps none pk c found = h
    put_comment-Keeps (some content) pk c found = record {
      subject = λ k d e. elim (update_cases comments k pk _ d store.comment_rows e) [
        | inl (_, new) ↦ rw new (h.subject pk c found)
        | inr old ↦ h.subject k d old
      ];
      title_fits = h.title_fits;
    }

    comment_found-Keeps :
        (m : Method) (r : Request dj) (pk : ℕ) (o : Option Comment)
        → comments.find pk store.comment_rows ≡ o
        → Keeps (comment_found dj drf m r pk o store)
    unfolding comment_found
    comment_found-Keeps m r pk none e = h
    comment_found-Keeps get r pk (some c) e = h
    comment_found-Keeps put r pk (some c) e = put_comment-Keeps _ pk c e
    comment_found-Keeps delete r pk (some c) e = record {
      subject = λ k d f. h.subject k d (remove_cases comments k _ d store.comment_rows f).0;
      title_fits = h.title_fits;
    }
    comment_found-Keeps post r pk (some c) e = h
    comment_found-Keeps head r pk (some c) e = h
    comment_found-Keeps options r pk (some c) e = h
    comment_found-Keeps trace r pk (some c) e = h
    comment_found-Keeps other r pk (some c) e = h

    post_comment-Keeps :
        (o : Option Article) (form : Option Text) (pk : ℕ)
        → articles.find pk store.article_rows ≡ o
        → Keeps (post_comment dj drf o form pk store)
    unfolding post_comment
    post_comment-Keeps none form pk e = h
    post_comment-Keeps (some a) none pk e = h
    post_comment-Keeps (some a) (some content) pk e = record {
      subject = λ k d f. elim (insert_cases comments k _ d store.comment_rows f) [
        | inl new ↦ (a, rw new e)
        | inr old ↦ h.subject k d old
      ];
      title_fits = h.title_fits;
    }

  -- If each comment stands under an article that exists, and every title fits its column, so it is
  -- after any request of the article interface.
  pub serve-IsConsistent :
      (route : Route) (r : Request dj) (store : Store dj)
      → IsConsistent dj store
      → IsConsistent dj (serve dj drf route r store).1
  unfolding serve article_cr article_rud comment_detail comment_create
  serve-IsConsistent articles_url r store h =
      api_view-Keeps _ r.method _ store h (cr_body-Keeps store h r.method r)
  serve-IsConsistent (article_url pk) r store h =
      api_view-Keeps _ r.method _ store h (rud-Keeps store h r.method r pk _)
  serve-IsConsistent (comment_url pk) r store h =
      api_view-Keeps _ r.method _ store h (comment_found-Keeps store h r.method r pk _ refl)
  serve-IsConsistent (article_comments_url pk) r store h =
      api_view-Keeps _ r.method _ store h (post_comment-Keeps store h _ _ pk refl)
