-- ===== src/Settings/Installed.antt =====
-- The applications of the migrations.
use mathlib.Core.List.{Memᴰ}
use til.Prelude.{refl}
use til.Settings.{App, accounts, articles, todos, music}
use til.Settings.Blog as Blog
use til.Settings.Todo as Todo
use til.Settings.Articles as Articles
use til.Settings.Music as Music
use til.Migrations.Blog as BlogPlan
use til.Migrations.Todo as TodoPlan
use til.Migrations.Articles as ArticlesPlan
use til.Migrations.Music as MusicPlan

blog_app : BlogPlan.Migration → App
blog_app BlogPlan.accounts_0001 = accounts
blog_app BlogPlan.articles_0001 = articles
blog_app BlogPlan.articles_0002 = articles
blog_app BlogPlan.articles_0003 = articles

todo_app : TodoPlan.Migration → App
todo_app TodoPlan.accounts_0001 = accounts
todo_app TodoPlan.todos_0001 = todos

-- Every migration of the blog belongs to an application that is installed, so that `migrate` finds
-- it.
blog_app-installed : (m : BlogPlan.Migration) → Memᴰ (blog_app m) Blog.installed_apps
unfolding blog_app
blog_app-installed BlogPlan.accounts_0001 = Memᴰ.tail (Memᴰ.head refl)
blog_app-installed BlogPlan.articles_0001 = Memᴰ.head refl
blog_app-installed BlogPlan.articles_0002 = Memᴰ.head refl
blog_app-installed BlogPlan.articles_0003 = Memᴰ.head refl

todo_app-installed : (m : TodoPlan.Migration) → Memᴰ (todo_app m) Todo.installed_apps
unfolding todo_app
todo_app-installed TodoPlan.accounts_0001 = Memᴰ.tail (Memᴰ.head refl)
todo_app-installed TodoPlan.todos_0001 = Memᴰ.head refl

articles-installed : (m : ArticlesPlan.Migration) → Memᴰ articles Articles.installed_apps
articles-installed m = Memᴰ.head refl

music-installed : (m : MusicPlan.Migration) → Memᴰ music Music.installed_apps
music-installed m = Memᴰ.head refl
