-- ===== src/Migrations/Blog.antt =====
-- 2022/DB/1006/02_db_workshop_skeleton: the migrations of `accounts` and `articles`, and the columns
-- that articles/models.py declares.
use til.Prelude.{ℕ, List, [], ◌∷◌}
use til.Migrations.{
  user, article, comment, group, permission, big_auto, text_field, boolean_field, date_time_field,
  null_date_time_field, auto_now_add, auto_now, char_field, unique_char_field, email_field,
  foreign_key, many_to_many, id, password, last_login, is_superuser, username, first_name,
  last_name, email, is_staff, is_active, date_joined, groups, user_permissions, title, content,
  created_at, updated_at, article_id, user_id, Columns, Operation, create_model, add_field, Project,
}
pub mod Agreement

pub data Migration : Type 0 where
  accounts_0001 articles_0001 articles_0002 articles_0003 : Migration

-- accounts/migrations/0001_initial.py
abbrev pub user_columns : Columns
user_columns =
    (id, big_auto)
    ∷ (password, char_field 128)
    ∷ (last_login, null_date_time_field)
    ∷ (is_superuser, boolean_field)
    ∷ (username, unique_char_field 150)
    ∷ (first_name, char_field 150)
    ∷ (last_name, char_field 150)
    ∷ (email, email_field 254)
    ∷ (is_staff, boolean_field)
    ∷ (is_active, boolean_field)
    ∷ (date_joined, date_time_field)
    ∷ (groups, many_to_many group)
    ∷ (user_permissions, many_to_many permission)
    ∷ []

-- articles/migrations/0001_initial.py
abbrev pub first_articles : Columns
first_articles =
    (id, big_auto)
    ∷ (title, char_field 10)
    ∷ (content, text_field)
    ∷ (created_at, auto_now_add)
    ∷ (updated_at, auto_now)
    ∷ []

-- articles/migrations/0002_comment.py
abbrev pub first_comments : Columns
first_comments =
    (id, big_auto)
    ∷ (content, char_field 200)
    ∷ (created_at, auto_now_add)
    ∷ (updated_at, auto_now)
    ∷ (article_id, foreign_key article)
    ∷ []

-- articles/models.py; `id` is the `DEFAULT_AUTO_FIELD` of the settings.
abbrev pub article_model : Columns
article_model =
    (id, big_auto)
    ∷ (title, char_field 10)
    ∷ (content, text_field)
    ∷ (created_at, auto_now_add)
    ∷ (updated_at, auto_now)
    ∷ (user_id, foreign_key user)
    ∷ []

abbrev pub comment_model : Columns
comment_model =
    (id, big_auto)
    ∷ (content, char_field 200)
    ∷ (article_id, foreign_key article)
    ∷ (created_at, auto_now_add)
    ∷ (updated_at, auto_now)
    ∷ []

unfoldable pub dependencies : Migration → List Migration
dependencies accounts_0001 = []
dependencies articles_0001 = []
dependencies articles_0002 = articles_0001 ∷ []
dependencies articles_0003 = accounts_0001 ∷ articles_0002 ∷ []

-- articles/migrations/0003_article_user.py adds the author.
unfoldable pub operations : Migration → List Operation
operations accounts_0001 = create_model user user_columns ∷ []
operations articles_0001 = create_model article first_articles ∷ []
operations articles_0002 = create_model comment first_comments ∷ []
operations articles_0003 = add_field article (user_id, foreign_key user) ∷ []

abbrev pub migration_number : Migration → ℕ
migration_number accounts_0001 = 0
migration_number articles_0001 = 1
migration_number articles_0002 = 2
migration_number articles_0003 = 3

abbrev pub project : Project
project = record {
  Migration = Migration;
  number = migration_number;
  dependencies = dependencies;
  operations = operations;
}
