-- ===== src/Settings/Entry.antt =====
-- Which settings the entry points of the projects start with.
use til.Prelude.{◌≡◌, refl, Bool, true, Option, none, some, List}
use til.Django.{Text}
use til.Django.Urls.{codes}
use til.Settings.{Environ, executed, Started}
use til.Settings.Guarded.{Project, blog, todo, articles, music}
use til.Settings.Blog as Blog
use til.Settings.Todo as Todo
use til.Settings.Articles as Articles
use til.Settings.Music as Music

main : Project → Environ → Bool → List Text → Started
main blog = Blog.main
main todo = Todo.main
main articles = Articles.main
main music = Music.main

wsgi : Project → Environ → Environ
wsgi blog = Blog.wsgi
wsgi todo = Todo.wsgi
wsgi articles = Articles.wsgi
wsgi music = Music.wsgi

asgi : Project → Environ → Environ
asgi blog = Blog.asgi
asgi todo = Todo.asgi
asgi articles = Articles.asgi
asgi music = Music.asgi

own_settings : Project → Text
own_settings blog = codes "crud.settings"
own_settings todo = codes "config.settings"
own_settings articles = codes "config.settings"
own_settings music = codes "my_api.settings"

-- The settings that are named in the environment, or else the project's own.
abbrev chosen : Project → Option Text → Text
chosen p none = own_settings p
chosen p (some there) = there

abbrev in_environment : Project → Environ → Environ
in_environment p env = record env { settings_module = some (chosen p env.settings_module) }

-- All three entry points of a project start with the same settings, and leave the rest of the
-- environment as it is; a value that the environment has goes before the project's own.
entry-chosen :
    (p : Project) (module_there : Option Text) (others : List (Text × Text)) (argv : List Text)
    → let env : Environ = record { settings_module = module_there; others = others } in
      (main p env true argv ≡ executed (in_environment p env) argv)
      × (wsgi p env ≡ in_environment p env)
      × (asgi p env ≡ in_environment p env)
unfolding main wsgi asgi own_settings Blog.main Blog.wsgi Blog.asgi Todo.main Todo.wsgi Todo.asgi
    Articles.main Articles.wsgi Articles.asgi Music.main Music.wsgi Music.asgi
entry-chosen blog none others argv = (refl, refl, refl)
entry-chosen blog (some there) others argv = (refl, refl, refl)
entry-chosen todo none others argv = (refl, refl, refl)
entry-chosen todo (some there) others argv = (refl, refl, refl)
entry-chosen articles none others argv = (refl, refl, refl)
entry-chosen articles (some there) others argv = (refl, refl, refl)
entry-chosen music none others argv = (refl, refl, refl)
entry-chosen music (some there) others argv = (refl, refl, refl)
