-- ===== src/Blog/Urls/Consistent.antt =====
-- The requests of the blog and its database invariant: articles/views.py.
use til.Prelude.{ℕ, ◌≡◌, refl, Option, none, some, List, [], ◌∷◌, Bool-cases, inl, inr}
use til.Django.{post, same_method}
use til.Django.Decorated.{methods_ind, login_ind}
use til.Django.{Text}
use til.Blog.Models.{Article, Comment, Backend, Site, Request, request_user, Deco}
use til.Blog.Changes.{
  IsConsistent, add_article-IsConsistent, edit_article-IsConsistent, add_comment-IsConsistent,
  drop_comment-IsConsistent, delete_article-IsConsistent,
}
use til.Blog.Articles.{
  Answer, is_authenticated, index_view, save_article, create_body, create, detail_found,
  detail_view, delete_found, delete_body, delete, save_update, update_found, update_body, update,
  save_comment, comment_create_body, comment_create, comment_on, comment_found, comment_delete_body,
  comment_delete, is_user,
}
use til.Blog.Urls.{
  Route, articles_index, articles_create, articles_detail, articles_delete, articles_update,
  articles_comment_create, articles_comment_delete, accounts_login, accounts_logout,
  accounts_signup, accounts_delete, accounts_update, accounts_change_password, serve, browse,
}
use til.Blog.Urls.Consistent.Accounts.{
  login-Keeps, logout-Keeps, signup-Keeps, delete_account-Keeps, update_account-Keeps,
  change_password-Keeps,
}
mod Accounts

module _ (dj : Backend) (deco : Deco dj) where
  open dj use {Post, Session, users, articles, comments, article_form, comment_form}

  abbrev Keeps : Site dj → Answer dj deco → Type 0
  Keeps site answer = IsConsistent dj answer.1

  module _ (site : Site dj) (h : IsConsistent dj site) where
    save_article-Keeps :
        (form : Option (Text × Text)) (user : Option ℕ) (data_in : Post)
        → article_form data_in ≡ form
        → request_user dj site ≡ user
        → Keeps site (save_article dj deco form user site)
    unfolding save_article request_user
    save_article-Keeps none user data_in e q = h
    save_article-Keeps (some (title, content)) none data_in e q = h
    save_article-Keeps (some (title, content)) (some u) data_in e q =
        let (user, found) = dj.user_of_exists site.session _ u q in
        add_article-IsConsistent dj site h _ found (dj.article_form_fits data_in title content e)

    create-Keeps : (r : Request dj) → Keeps site (create dj deco r site)
    unfolding create create_body
    create-Keeps r = login_ind deco (Keeps site) _ _ site h λ _.
        methods_ind deco (Keeps site) _ r.method _ site h λ _.
          elim (Bool-cases (same_method r.method post)) [
            | inl posted ↦ rw posted (save_article-Keeps _ _ r.post_data refl refl)
            | inr other ↦ rw other h
          ]

    index-Keeps : (r : Request dj) → Keeps site (index_view dj deco r site)
    unfolding index_view
    index-Keeps r = methods_ind deco (Keeps site) _ r.method _ site h (λ _. h)

    found-Keeps : (pk : ℕ) (o : Option Article) → Keeps site (detail_found dj deco pk o site)
    unfolding detail_found
    found-Keeps pk none = h
    found-Keeps pk (some a) = h

    detail-Keeps : (r : Request dj) (pk : ℕ) → Keeps site (detail_view dj deco r pk site)
    unfolding detail_view
    detail-Keeps r pk = methods_ind deco (Keeps site) _ r.method _ site h (λ _. found-Keeps pk _)

    delete_found-Keeps : (pk : ℕ) (o : Option Article) → Keeps site (delete_found dj deco pk o site)
    unfolding delete_found
    delete_found-Keeps pk none = h
    delete_found-Keeps pk (some a) = delete_article-IsConsistent dj site h pk

    delete-Keeps : (r : Request dj) (pk : ℕ) → Keeps site (delete dj deco r pk site)
    unfolding delete delete_body
    delete-Keeps r pk = methods_ind deco (Keeps site) _ r.method _ site h λ _.
        elim (Bool-cases (is_authenticated (request_user dj site))) [
          | inl known ↦ rw known (delete_found-Keeps pk _)
          | inr unknown ↦ rw unknown h
        ]

    save_update-Keeps :
        (form : Option (Text × Text)) (changed : Article) (pk : ℕ) (a : Article) (data_in : Post)
        → article_form data_in ≡ form
        → articles.find pk site.article_rows ≡ some a
        → Keeps site (save_update dj deco form changed pk a site)
    unfolding save_update
    save_update-Keeps none changed pk a data_in e found = h
    save_update-Keeps (some (title, content)) changed pk a data_in e found =
        let (user, by) = h.author pk a found in
        edit_article-IsConsistent dj site h pk _ by (dj.article_form_fits data_in title content e)

    update_found-Keeps :
        (r : Request dj) (pk : ℕ) (o : Option Article)
        → articles.find pk site.article_rows ≡ o
        → Keeps site (update_found dj deco r pk o site)
    unfolding update_found
    update_found-Keeps r pk none e = h
    update_found-Keeps r pk (some a) e =
        elim (Bool-cases (is_user dj deco a.user (request_user dj site))) [
          | inl owner ↦ rw owner (elim (Bool-cases (same_method r.method post)) [
            | inl posted ↦ rw posted (save_update-Keeps _ _ pk a r.post_data refl e)
            | inr other ↦ rw other h
          ])
          | inr stranger ↦ rw stranger h
        ]

    update-Keeps : (r : Request dj) (pk : ℕ) → Keeps site (update dj deco r pk site)
    unfolding update update_body
    update-Keeps r pk =
        login_ind deco (Keeps site) _ _ site h
          λ _. methods_ind deco (Keeps site) _ r.method _ site h λ _. update_found-Keeps r pk _ refl

    save_comment-Keeps :
        (o : Option Article) (form : Option Text) (pk : ℕ) (data_in : Post)
        → articles.find pk site.article_rows ≡ o
        → comment_form data_in ≡ form
        → Keeps site (save_comment dj deco o form pk site)
    unfolding save_comment
    save_comment-Keeps none form pk data_in e f = h
    save_comment-Keeps (some a) none pk data_in e f = h
    save_comment-Keeps (some a) (some content) pk data_in e f =
        add_comment-IsConsistent dj site h _ e (dj.comment_form_fits data_in content f)

    comment_create-Keeps : (r : Request dj) (pk : ℕ) → Keeps site (comment_create dj deco r pk site)
    unfolding comment_create comment_create_body
    comment_create-Keeps r pk = methods_ind deco (Keeps site) _ r.method _ site h λ _.
        elim (Bool-cases (is_authenticated (request_user dj site))) [
          | inl known ↦ rw known (save_comment-Keeps _ _ pk r.post_data refl refl)
          | inr unknown ↦ rw unknown h
        ]

    comment_on-Keeps :
        (pk : ℕ) (c : Comment) (o : Option Article) → Keeps site (comment_on dj deco pk c o site)
    unfolding comment_on
    comment_on-Keeps pk c none = h
    comment_on-Keeps pk c (some a) = drop_comment-IsConsistent dj site h _

    comment_found-Keeps :
        (pk : ℕ) (o : Option Comment) → Keeps site (comment_found dj deco pk o site)
    unfolding comment_found
    comment_found-Keeps pk none = h
    comment_found-Keeps pk (some c) = comment_on-Keeps pk c _

    comment_delete-Keeps : (r : Request dj) (pk : ℕ) → Keeps site (comment_delete dj deco r pk site)
    unfolding comment_delete comment_delete_body
    comment_delete-Keeps r pk = methods_ind deco (Keeps site) _ r.method _ site h λ _.
        elim (Bool-cases (is_authenticated (request_user dj site))) [
          | inl known ↦ rw known (comment_found-Keeps pk _)
          | inr unknown ↦ rw unknown h
        ]

    serve-Keeps : (route : Route) (r : Request dj) → Keeps site (serve dj deco route r site)
    unfolding serve
    serve-Keeps articles_index r = index-Keeps r
    serve-Keeps articles_create r = create-Keeps r
    serve-Keeps (articles_detail pk) r = detail-Keeps r pk
    serve-Keeps (articles_delete pk) r = delete-Keeps r pk
    serve-Keeps (articles_update pk) r = update-Keeps r pk
    serve-Keeps (articles_comment_create pk) r = comment_create-Keeps r pk
    serve-Keeps (articles_comment_delete pk) r = comment_delete-Keeps r pk
    serve-Keeps accounts_login r = login-Keeps dj deco site h r
    serve-Keeps accounts_logout r = logout-Keeps dj deco site h r
    serve-Keeps accounts_signup r = signup-Keeps dj deco site h r
    serve-Keeps accounts_delete r = delete_account-Keeps dj deco site h r
    serve-Keeps accounts_update r = update_account-Keeps dj deco site h r
    serve-Keeps accounts_change_password r = change_password-Keeps dj deco site h r

  -- Any sequence of requests leaves a consistent database consistent: every comment stands under an
  -- article, every article has a user, titles and comments fit their columns, and every password has
  -- at least 8 characters, not all of them digits.
  pub browse-IsConsistent :
      (requests : List (Route × Request dj)) (site : Site dj)
      → IsConsistent dj site
      → IsConsistent dj (browse dj deco requests site)
  unfolding browse
  browse-IsConsistent [] site h = h
  browse-IsConsistent ((route, r) ∷ rest) site h =
      browse-IsConsistent rest (serve dj deco route r site).1 (serve-Keeps site h route r)
