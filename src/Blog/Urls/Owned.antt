-- ===== src/Blog/Urls/Owned.antt =====
-- What the views of articles/views.py leave of an article of another user.
use mathlib.Core.Option.{some-injective}
use til.Prelude.{
  ℕ, ◌≡◌, ◌≢◌, refl, sym, ap, ◌∙◌, true, Option, none, some, Bool-cases, inl, inr, arith,
}
use til.Django.{post, same_method}
use til.Django.Decorated.{methods_ind, login_ind}
use til.Django.Tables.{insert_keeps, remove_cases, update_cases}
use til.Django.{Text}
use til.Blog.Models.{Article, Comment, Backend, Site, Request, request_user, delete_article, Deco}
use til.Blog.Articles.{
  Answer, is_authenticated, index_view, save_article, create_body, create, detail_found,
  detail_view, delete_found, delete_body, delete, save_update, update_found, update_body, update,
  save_comment, comment_create_body, comment_create, comment_on, comment_found, comment_delete_body,
  comment_delete, is_user,
}
use til.Blog.Accounts.{update_account, change_password}
use til.Blog.Urls.{
  Route, articles_index, articles_create, articles_detail, articles_delete, articles_update,
  articles_comment_create, articles_comment_delete, accounts_login, accounts_logout,
  accounts_signup, accounts_delete, accounts_update, accounts_change_password, serve,
}
use til.Blog.Urls.Owned.Accounts.{
  login-Intact, logout-Intact, signup-Intact, delete_account-Intact, update_as-Intact,
  password_as-Intact,
}
mod Accounts

is_user_eq :
    (dj : Backend) (deco : Deco dj) (u : ℕ) (o : Option ℕ) → is_user dj deco u o ≡ true → o ≡ some u
is_user_eq dj deco u none e = absurd (cc)
is_user_eq dj deco u (some v) e = ap some (ground arith)

module _ (dj : Backend) (deco : Deco dj) (r : Request dj) (site : Site dj) (k : ℕ) (a : Article)
    (found : dj.articles.find k site.article_rows ≡ some a)
    (stranger : request_user dj site ≢ some a.user) where
  open dj use {articles}

  -- If the article is still there, it is as it was.
  abbrev Intact : Answer dj deco → Type 0
  Intact answer = (a' : Article) → articles.find k answer.1.article_rows ≡ some a' → a' ≡ a

  same : (a' : Article) → articles.find k site.article_rows ≡ some a' → a' ≡ a
  same a' e = some-injective _ _ (sym e ∙ found)

  save_article-Intact :
      (form : Option (Text × Text)) (user : Option ℕ) → Intact (save_article dj deco form user site)
  unfolding save_article
  save_article-Intact none user = same
  save_article-Intact (some (t, c)) none = same
  save_article-Intact (some (t, c)) (some u) =
      λ a' e. some-injective _ _ (sym e ∙ insert_keeps articles k _ a site.article_rows found)

  create-Intact : Intact (create dj deco r site)
  unfolding create create_body
  create-Intact = login_ind deco Intact _ _ site same λ _.
      methods_ind deco Intact _ r.method _ site same λ _.
        elim (Bool-cases (same_method r.method post)) [
          | inl posted ↦ rw posted (save_article-Intact _ _)
          | inr other ↦ rw other same
        ]

  found-Intact : (pk : ℕ) (o : Option Article) → Intact (detail_found dj deco pk o site)
  unfolding detail_found
  found-Intact pk none = same
  found-Intact pk (some x) = same

  delete_found-Intact : (pk : ℕ) (o : Option Article) → Intact (delete_found dj deco pk o site)
  unfolding delete_found delete_article
  delete_found-Intact pk none = same
  delete_found-Intact pk (some x) =
      λ a' e. same a' (remove_cases articles k _ a' site.article_rows e).0

  delete-Intact : (pk : ℕ) → Intact (delete dj deco r pk site)
  unfolding delete delete_body
  delete-Intact pk = methods_ind deco Intact _ r.method _ site same λ _.
      elim (Bool-cases (is_authenticated (request_user dj site))) [
        | inl known ↦ rw known (delete_found-Intact pk _)
        | inr unknown ↦ rw unknown same
      ]

  save_update-Intact :
      (form : Option (Text × Text)) (changed : Article) (pk : ℕ) (x : Article)
      → k ≢ pk
      → Intact (save_update dj deco form changed pk x site)
  unfolding save_update
  save_update-Intact none changed pk x n = same
  save_update-Intact (some (t, c)) changed pk x n = λ a' e.
      elim (update_cases articles k pk _ a' site.article_rows e) [
        | inl (here, _) ↦ absurd (n here)
        | inr old ↦ same a' old
      ]

  -- The author of the article that is updated is the visitor, so it is another article.
  elsewhere :
      (pk : ℕ) (x : Article)
      → articles.find pk site.article_rows ≡ some x
      → is_user dj deco x.user (request_user dj site) ≡ true
      → k ≢ pk
  elsewhere pk x e owner here =
      let twin : a ≡ x = some-injective _ _ (sym found ∙ rw here e) in
      stranger (is_user_eq dj deco x.user _ owner ∙ ap (λ (y : Article). some y.user) (sym twin))

  update_found-Intact :
      (pk : ℕ) (o : Option Article)
      → articles.find pk site.article_rows ≡ o
      → Intact (update_found dj deco r pk o site)
  unfolding update_found
  update_found-Intact pk none e = same
  update_found-Intact pk (some x) e =
      elim (Bool-cases (is_user dj deco x.user (request_user dj site))) [
        | inl owner ↦ rw owner (elim (Bool-cases (same_method r.method post)) [
          | inl posted ↦ rw posted (save_update-Intact _ _ pk x (elsewhere pk x e owner))
          | inr other ↦ rw other same
        ])
        | inr other ↦ rw other same
      ]

  update-Intact : (pk : ℕ) → Intact (update dj deco r pk site)
  unfolding update update_body
  update-Intact pk =
      login_ind deco Intact _ _ site same
        λ _. methods_ind deco Intact _ r.method _ site same λ _. update_found-Intact pk _ refl

  save_comment-Intact :
      (o : Option Article) (form : Option Text) (pk : ℕ)
      → Intact (save_comment dj deco o form pk site)
  unfolding save_comment
  save_comment-Intact none form pk = same
  save_comment-Intact (some x) none pk = same
  save_comment-Intact (some x) (some content) pk = same

  comment_create-Intact : (pk : ℕ) → Intact (comment_create dj deco r pk site)
  unfolding comment_create comment_create_body
  comment_create-Intact pk = methods_ind deco Intact _ r.method _ site same λ _.
      elim (Bool-cases (is_authenticated (request_user dj site))) [
        | inl known ↦ rw known (save_comment-Intact _ _ pk)
        | inr unknown ↦ rw unknown same
      ]

  comment_on-Intact :
      (pk : ℕ) (c : Comment) (o : Option Article) → Intact (comment_on dj deco pk c o site)
  unfolding comment_on
  comment_on-Intact pk c none = same
  comment_on-Intact pk c (some x) = same

  comment_found-Intact : (pk : ℕ) (o : Option Comment) → Intact (comment_found dj deco pk o site)
  unfolding comment_found
  comment_found-Intact pk none = same
  comment_found-Intact pk (some c) = comment_on-Intact pk c _

  comment_delete-Intact : (pk : ℕ) → Intact (comment_delete dj deco r pk site)
  unfolding comment_delete comment_delete_body
  comment_delete-Intact pk = methods_ind deco Intact _ r.method _ site same λ _.
      elim (Bool-cases (is_authenticated (request_user dj site))) [
        | inl known ↦ rw known (comment_found-Intact pk _)
        | inr unknown ↦ rw unknown same
      ]

  serve-Intact : (route : Route) → Intact (serve dj deco route r site)
  unfolding serve index_view detail_view update_account change_password
  serve-Intact articles_index = methods_ind deco Intact _ r.method _ site same (λ _. same)
  serve-Intact articles_create = create-Intact
  serve-Intact (articles_detail pk) =
      methods_ind deco Intact _ r.method _ site same (λ _. found-Intact pk _)
  serve-Intact (articles_delete pk) = delete-Intact pk
  serve-Intact (articles_update pk) = update-Intact pk
  serve-Intact (articles_comment_create pk) = comment_create-Intact pk
  serve-Intact (articles_comment_delete pk) = comment_delete-Intact pk
  serve-Intact accounts_login = login-Intact dj deco r site k a found stranger
  serve-Intact accounts_logout = logout-Intact dj deco r site k a found stranger
  serve-Intact accounts_signup = signup-Intact dj deco r site k a found stranger
  serve-Intact accounts_delete = delete_account-Intact dj deco r site k a found stranger
  serve-Intact accounts_update = login_ind deco Intact _ _ site same λ _.
      methods_ind deco Intact _ r.method _ site same
        λ _. update_as-Intact dj deco r site k a found stranger _
  serve-Intact accounts_change_password = login_ind deco Intact _ _ site same λ _.
      methods_ind deco Intact _ r.method _ site same
        λ _. password_as-Intact dj deco r site k a found stranger _

-- No request of a visitor other than the author changes an article: if it is there afterwards, its
-- title, content and author are what they were.
pub serve-owned :
    (dj : Backend) (deco : Deco dj) (route : Route) (r : Request dj) (site : Site dj) (k : ℕ)
    (a a' : Article)
    → dj.articles.find k site.article_rows ≡ some a
    → request_user dj site ≢ some a.user
    → dj.articles.find k (serve dj deco route r site).1.article_rows ≡ some a'
    → a' ≡ a
serve-owned dj deco route r site k a a' found stranger after =
    serve-Intact dj deco r site k a found stranger route a' after
