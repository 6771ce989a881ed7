-- ===== src/Api/Articles/Promise/Queries.antt =====
-- What the serializers of the article interface show of the tables.
use mathlib.Core.List.Memᴰ
use mathlib.Core.List.{Memᴰ}
use til.Prelude.{ℕ, ◌≡◌, ◌↔◌, refl, ap, subst, Bool, true, some, map, ◌==◌, arith}
use til.Django.{Table}
use til.Api.Articles.{Article, Backend, Store, comment_set, show_article, show_list}
use til.Api.Articles.Promise.{IsListing, IsCommentSet, Shows, db_of}

-- What is shown of the rows of a query.
module _ {Row B : Type 0} (t : Table Row) (p : ℕ → Row → Bool) (rows : t.Rows)
    (g : ℕ × Row → B) where
  shown_iff :
      (y : B)
      → Memᴰ y (map g (t.select p rows))
        ↔ ((k : ℕ) × (a : Row) × (t.find k rows ≡ some a) × (p k a ≡ true) × (g (k, a) ≡ y))
  shown_iff y = (
    λ m.
        let ((k, a), found, e) = Memᴰ.of_map g (t.select p rows) m in
        let (there, passed) = (t.select_iff k a p rows).0 found in (k, a, there, passed, e),
    λ (k, a, there, passed, e).
        subst (λ z. Memᴰ z (map g (t.select p rows))) e
          (Memᴰ.map g ((t.select_iff k a p rows).1 (there, passed))),
  )

eq_of_== : (a b : ℕ) → (a == b) ≡ true → a ≡ b
eq_of_== a b h = ground arith

==_of_eq : (a b : ℕ) → a ≡ b → (a == b) ≡ true
==_of_eq a b h = ground arith

module _ (dj : Backend) where
  open dj use {articles, comments}

  comment_set-IsCommentSet :
      (pk : ℕ) (store : Store dj) → IsCommentSet (db_of dj store) pk (comment_set dj pk store)
  unfolding comment_set
  comment_set-IsCommentSet pk store k =
      let iff = shown_iff comments (λ j c. c.article == pk) store.comment_rows (λ row. row.0) k in
      (
        λ m.
            let (j, c, there, under, e) = iff.0 m in
            (c, rw (← e) there, eq_of_== c.article pk under),
        λ (c, there, under). iff.1 (k, c, there, ==_of_eq c.article pk under, refl),
      )

  pub show_list-IsListing :
      (store : Store dj)
      → IsListing (db_of dj store) (show_list dj (articles.select (λ k a. true) store.article_rows))
  show_list-IsListing store k t =
      let iff =
        shown_iff articles (λ j a. true) store.article_rows (λ row. (row.0, row.1.title)) (k, t) in
      (
        λ m.
            let (j, a, there, passed, e) = iff.0 m in
            let same : j ≡ k = ap (λ x. x.0) e in (a, rw (← same) there, ap (λ x. x.1) e),
        λ (a, there, e). iff.1 (k, a, there, refl, ap (λ x. (k, x)) e),
      )

  pub show_article-Shows :
      (pk : ℕ) (a : Article) (store : Store dj)
      → Shows (db_of dj store) pk a (show_article dj pk a store)
  unfolding show_article
  show_article-Shows pk a store = (comment_set dj pk store, comment_set-IsCommentSet pk store, refl)
