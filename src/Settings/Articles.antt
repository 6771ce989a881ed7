-- ===== src/Settings/Articles.antt =====
-- 2022/DB/1017/config/settings.py, and the entry points beside it.
use til.Prelude.{Bool, List, [], ◌∷◌}
use til.Django.{Text}
use til.Django.Urls.{codes}
use til.Settings.{
  Environ, Started, set_default, main_with, App, articles, rest_framework, admin, auth,
  contenttypes, sessions, messages, staticfiles, Middleware, Validator,
  user_attribute_similarity_validator, minimum_length_validator, common_password_validator,
  numeric_password_validator, security_middleware, session_middleware, common_middleware,
  csrf_view_middleware, authentication_middleware, message_middleware, x_frame_options_middleware,
}

abbrev pub installed_apps : List App
installed_apps =
    articles ∷ rest_framework ∷ admin ∷ auth ∷ contenttypes ∷ sessions ∷ messages ∷ staticfiles ∷ []

abbrev pub middleware : List Middleware
middleware =
    security_middleware ∷ session_middleware ∷ common_middleware ∷ csrf_view_middleware
    ∷ authentication_middleware ∷ message_middleware ∷ x_frame_options_middleware ∷ []

abbrev pub auth_password_validators : List Validator
auth_password_validators =
    user_attribute_similarity_validator ∷ minimum_length_validator ∷ common_password_validator
    ∷ numeric_password_validator ∷ []

-- manage.py
unfoldable pub main : Environ → Bool → List Text → Started
unfolding main_with
main = main_with (codes "config.settings")

-- config/wsgi.py: the environment in which the application is made.
unfoldable pub wsgi : Environ → Environ
unfolding set_default
wsgi = set_default (codes "config.settings")

-- config/asgi.py
unfoldable pub asgi : Environ → Environ
unfolding set_default
asgi = set_default (codes "config.settings")
