-- ===== src/Blog/Urls.antt =====
-- crud/urls.py, articles/urls.py and accounts/urls.py: which view serves which URL.
use til.Prelude.{ℕ, List, [], ◌∷◌}
use til.Blog.Models.{Backend, Site, Request, Deco}
use til.Blog.Articles.{
  Answer, index_view, create, detail_view, delete, update, comment_create, comment_delete,
}
use til.Blog.Accounts.{
  login_view, logout_view, signup, delete_account, update_account, change_password,
}
pub mod Consistent
pub mod Guarded
pub mod Owned
pub mod Login
pub mod Removal
pub mod Routing

-- The named URLs with their integer parts.
pub data Route : Type 0 where
  articles_index articles_create : Route
  articles_detail articles_delete articles_update : ℕ → Route
  articles_comment_create articles_comment_delete : ℕ → Route
  accounts_login accounts_logout accounts_signup : Route
  accounts_delete accounts_update accounts_change_password : Route

module _ (dj : Backend) (deco : Deco dj) where
  unfoldable pub serve : Route → Request dj → Site dj → Answer dj deco
  serve articles_index r = index_view dj deco r
  serve articles_create r = create dj deco r
  serve (articles_detail pk) r = detail_view dj deco r pk
  serve (articles_delete pk) r = delete dj deco r pk
  serve (articles_update pk) r = update dj deco r pk
  serve (articles_comment_create pk) r = comment_create dj deco r pk
  serve (articles_comment_delete pk) r = comment_delete dj deco r pk
  serve accounts_login r = login_view dj deco r
  serve accounts_logout r = logout_view dj deco r
  serve accounts_signup r = signup dj deco r
  serve accounts_delete r = delete_account dj deco r
  serve accounts_update r = update_account dj deco r
  serve accounts_change_password r = change_password dj deco r

  -- The requests of one visitor, one after the other.
  unfoldable pub browse : List (Route × Request dj) → Site dj → Site dj
  browse [] site = site
  browse ((route, r) ∷ rest) site = browse rest (serve route r site).1
