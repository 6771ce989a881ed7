-- ===== src/Blog/Urls/Removal.antt =====
-- Deletions, and requests for rows that are not there.
use til.Prelude.{ℕ, ◌≡◌, refl, ap, ◌∙◌, true, none, some, [], ◌∷◌, arith}
use til.Django.{post, is_in, same_method, redirect}
use til.Blog.Models.{
  User, Article, Comment, Backend, Site, Request, request_user, delete_user, delete_article, Deco,
  index,
}
use til.Blog.Articles.{is_authenticated, delete_found, delete_body, delete}
use til.Blog.Accounts.{delete_as, delete_account_body, delete_account}

module _ (dj : Backend) (deco : Deco dj) (r : Request dj) (posted : r.method ≡ post) where
  open dj use {users, articles, comments, comment_form}

  delete_body-found :
      (pk u : ℕ) (a : Article) (site : Site dj)
      → request_user dj site ≡ some u
      → articles.find pk site.article_rows ≡ some a
      → delete_body dj deco pk site ≡ (redirect index, delete_article dj pk site)
  unfolding delete_body delete_found is_authenticated
  delete_body-found pk u a site known found = ground arith

  post_in : is_in r.method (post ∷ []) ≡ true
  unfolding is_in same_method
  post_in = rw posted refl

  -- Any user who is logged in, the author or not, deletes an article by a POST to its delete URL;
  -- a comment on it is deleted too.
  pub delete-any_user :
      (pk u k : ℕ) (a : Article) (c : Comment) (site : Site dj)
      → request_user dj site ≡ some u
      → articles.find pk site.article_rows ≡ some a
      → comments.find k site.comment_rows ≡ some c
      → c.article ≡ pk
      → (site' : Site dj) × (delete dj deco r pk site ≡ (redirect index, site'))
        × (articles.find pk site'.article_rows ≡ none)
        × (comments.find k site'.comment_rows ≡ none)
  unfolding delete delete_article
  delete-any_user pk u k a c site known found placed under =
      let gone : articles.find pk (delete_article dj pk site).article_rows ≡ none =
        articles.find-remove pk _ site.article_rows ∙ rw found (ground arith) in
      let gone' : comments.find k (delete_article dj pk site).comment_rows ≡ none =
        comments.find-remove k _ site.comment_rows ∙ rw placed (ground arith) in
      (
        delete_article dj pk site,
        deco.method_in _ r.method _ site post_in ∙ delete_body-found pk u a site known found,
        gone,
        gone',
      )

  -- A user who deletes the account by a POST is logged out, and the account and any article of the
  -- user are gone.
  delete_account-gone :
      (u k : ℕ) (user : User) (a : Article) (site : Site dj)
      → request_user dj site ≡ some u
      → users.find u site.user_rows ≡ some user
      → articles.find k site.article_rows ≡ some a
      → a.user ≡ u
      → (site' : Site dj) × (delete_account dj deco r site ≡ (redirect index, site'))
        × (request_user dj site' ≡ none)
        × (users.find u site'.user_rows ≡ none)
        × (articles.find k site'.article_rows ≡ none)
  unfolding delete_account delete_account_body delete_as delete_user request_user
  delete_account-gone u k user a site known found placed by =
      let site' : Site dj = record (delete_user dj u site) { session = dj.logout site.session } in
      let gone : users.find u site'.user_rows ≡ none =
        users.find-remove u _ site.user_rows ∙ rw found (ground arith) in
      let gone' : articles.find k site'.article_rows ≡ none =
        articles.find-remove k _ site.article_rows ∙ rw placed (ground arith) in
      (
        site',
        deco.method_in _ r.method _ site post_in ∙ ap (λ o. delete_as dj deco o site) known,
        dj.user_of-logout site.session _,
        gone,
        gone',
      )
