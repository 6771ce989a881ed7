-- ===== src/Blog/Articles.antt =====
-- articles/views.py.
use til.Prelude.{ℕ, Bool, true, false, Option, none, some, List, [], ◌∷◌, ◌==◌, if◌then◌else◌}
use til.Django.{get, head, post, same_method, Response, page, redirect, not_found, server_error}
use til.Django.{Text}
use til.Blog.Models.{
  Article, Comment, Backend, Site, Request, request_user, delete_article, Page, article_index,
  article_create, article_detail, article_update, Target, index, detail, login_page, Deco,
}

unfoldable pub is_authenticated : Option ℕ → Bool
is_authenticated none = false
is_authenticated (some u) = true

module _ (dj : Backend) (deco : Deco dj) where
  open dj use {Post, articles, comments, article_form, article_form_instance, comment_form}
  open deco use {require_http_methods, login_required}

  abbrev pub Answer : Type 0
  Answer = Response Page Target × Site dj

  unfoldable pub comments_of : ℕ → Site dj → List (ℕ × Comment)
  comments_of pk site = comments.select (λ k c. c.article == pk) site.comment_rows

  unfoldable pub index_view : Request dj → Site dj → Answer
  index_view r =
      require_http_methods (get ∷ head ∷ []) r.method
        λ site. (page (article_index (articles.select (λ k a. true) site.article_rows)), site)

  -- `form.save(commit=False)`, `article.user = request.user`, `form.save()`.
  unfoldable pub save_article : Option (Text × Text) → Option ℕ → Site dj → Answer
  save_article none user site = (page article_create, site)
  save_article (some (title, content)) none site = (server_error, site)
  save_article (some (title, content)) (some u) site =
      let (pk, rows) =
        articles.insert (record { title = title; content = content; user = u }) site.article_rows in
      (redirect (detail pk), record site { article_rows = rows })

  unfoldable pub create_body : Request dj → Site dj → Answer
  unfolding save_article request_user
  create_body r site =
      if same_method r.method post
      then save_article (article_form r.post_data) (request_user dj site) site
      else (page article_create, site)

  unfoldable pub create : Request dj → Site dj → Answer
  unfolding create_body is_authenticated
  create r site =
      login_required (is_authenticated (request_user dj site))
        (require_http_methods (get ∷ post ∷ []) r.method (create_body r)) site

  unfoldable pub detail_found : ℕ → Option Article → Site dj → Answer
  unfolding comments_of
  detail_found pk none site = (not_found, site)
  detail_found pk (some article) site =
      (page (article_detail pk article (comments_of pk site)), site)

  unfoldable pub detail_view : Request dj → ℕ → Site dj → Answer
  unfolding detail_found
  detail_view r pk =
      require_http_methods (get ∷ head ∷ []) r.method
        λ site. detail_found pk (articles.find pk site.article_rows) site

  unfoldable pub delete_found : ℕ → Option Article → Site dj → Answer
  unfolding delete_article
  delete_found pk none site = (not_found, site)
  delete_found pk (some article) site = (redirect index, delete_article dj pk site)

  unfoldable pub delete_body : ℕ → Site dj → Answer
  unfolding delete_found is_authenticated
  delete_body pk site =
      if is_authenticated (request_user dj site)
      then delete_found pk (articles.find pk site.article_rows) site
      else (redirect index, site)

  unfoldable pub delete : Request dj → ℕ → Site dj → Answer
  unfolding delete_body
  delete r pk = require_http_methods (post ∷ []) r.method (delete_body pk)

  -- `form.save()` of the form over the article. If the form is not valid, the page has the article as
  -- the form has left it, with the fields that are valid.
  unfoldable pub save_update : Option (Text × Text) → Article → ℕ → Article → Site dj → Answer
  save_update none changed pk article site = (page (article_update pk changed), site)
  save_update (some (title, content)) changed pk article site =
      let rows =
        articles.update pk (record article { title = title; content = content })
          site.article_rows in
      (redirect (detail pk), record site { article_rows = rows })

  abbrev pub is_user : ℕ → Option ℕ → Bool
  is_user u none = false
  is_user u (some v) = u == v

  unfoldable pub update_found : Request dj → ℕ → Option Article → Site dj → Answer
  unfolding save_update
  update_found r pk none site = (not_found, site)
  update_found r pk (some article) site =
      if is_user article.user (request_user dj site)
      then (if same_method r.method post
          then save_update (article_form r.post_data) (article_form_instance r.post_data article) pk
              article site
          else (page (article_update pk article), site))
      else (redirect (detail pk), site)

  unfoldable pub update_body : Request dj → ℕ → Site dj → Answer
  unfolding update_found
  update_body r pk site = update_found r pk (articles.find pk site.article_rows) site

  unfoldable pub update : Request dj → ℕ → Site dj → Answer
  unfolding update_body is_authenticated
  update r pk site =
      login_required (is_authenticated (request_user dj site))
        (require_http_methods (get ∷ post ∷ []) r.method (update_body r pk)) site

  -- `Article.objects.get` raises if there is no such article.
  unfoldable pub save_comment : Option Article → Option Text → ℕ → Site dj → Answer
  unfolding comments_of
  save_comment none form pk site = (server_error, site)
  save_comment (some article) none pk site =
      (page (article_detail pk article (comments_of pk site)), site)
  save_comment (some article) (some content) pk site =
      let rows =
        (comments.insert (record { content = content; article = pk }) site.comment_rows).1 in
      (redirect (detail pk), record site { comment_rows = rows })

  unfoldable pub comment_create_body : Request dj → ℕ → Site dj → Answer
  unfolding save_comment is_authenticated
  comment_create_body r pk site =
      if is_authenticated (request_user dj site)
      then save_comment (articles.find pk site.article_rows) (comment_form r.post_data) pk site
      else (redirect login_page, site)

  unfoldable pub comment_create : Request dj → ℕ → Site dj → Answer
  unfolding comment_create_body
  comment_create r pk = require_http_methods (post ∷ []) r.method (comment_create_body r pk)

  -- `comment.article` reads the article, and raises if it is gone.
  unfoldable pub comment_on : ℕ → Comment → Option Article → Site dj → Answer
  comment_on pk comment none site = (server_error, site)
  comment_on pk comment (some article) site = (
    redirect (detail comment.article),
    record site { comment_rows = comments.remove (λ k c. k == pk) site.comment_rows },
  )

  unfoldable pub comment_found : ℕ → Option Comment → Site dj → Answer
  unfolding comment_on
  comment_found pk none site = (server_error, site)
  comment_found pk (some comment) site =
      comment_on pk comment (articles.find comment.article site.article_rows) site

  unfoldable pub comment_delete_body : ℕ → Site dj → Answer
  unfolding comment_found is_authenticated
  comment_delete_body pk site =
      if is_authenticated (request_user dj site)
      then comment_found pk (comments.find pk site.comment_rows) site
      else (redirect login_page, site)

  unfoldable pub comment_delete : Request dj → ℕ → Site dj → Answer
  unfolding comment_delete_body
  comment_delete r pk = require_http_methods (post ∷ []) r.method (comment_delete_body pk)
