-- ===== src/Migrations/Todo.antt =====
-- 2022/DB/1006/03_db: the migrations of `accounts` and `todos`, and the columns that todos/models.py
-- declares.
use til.Prelude.{ℕ, ◌≡◌, refl, ◌∙◌, Bool, true, none, some, List, [], ◌∷◌, if◌then◌else◌, arith}
use til.Migrations.{
  user, todo, group, permission, big_auto, text_field, boolean_field, date_time_field,
  null_date_time_field, char_field, unique_char_field, email_field, foreign_key, many_to_many, Name,
  kind_of, id, password, last_login, is_superuser, username, first_name, last_name, email, is_staff,
  is_active, date_joined, groups, user_permissions, title, completed, author_id, Columns, Executor,
  is_some, Operation, create_model, Project, is_applied, is_plan, migrate, apply_all,
}
use til.Migrations.Single.{create-single}
use til.Migrations.Plans.{may_follow, after, is_applied-after, migrate_ind}

pub data Migration : Type 0 where
  accounts_0001 todos_0001 : Migration

-- accounts/migrations/0001_initial.py
abbrev pub user_columns : Columns
user_columns =
    (id, big_auto)
    ∷ (password, char_field 128)
    ∷ (last_login, null_date_time_field)
    ∷ (is_superuser, boolean_field)
    ∷ (username, unique_char_field 150)
    ∷ (first_name, char_field 150)
    ∷ (last_name, char_field 150)
    ∷ (email, email_field 254)
    ∷ (is_staff, boolean_field)
    ∷ (is_active, boolean_field)
    ∷ (date_joined, date_time_field)
    ∷ (groups, many_to_many group)
    ∷ (user_permissions, many_to_many permission)
    ∷ []

-- todos/migrations/0001_initial.py
abbrev pub todo_columns : Columns
todo_columns =
    (id, big_auto)
    ∷ (title, text_field)
    ∷ (completed, boolean_field)
    ∷ (author_id, foreign_key user)
    ∷ []

-- todos/models.py
abbrev pub todo_model : Columns
todo_model =
    (id, big_auto)
    ∷ (title, text_field)
    ∷ (completed, boolean_field)
    ∷ (author_id, foreign_key user)
    ∷ []

unfoldable pub dependencies : Migration → List Migration
dependencies accounts_0001 = []
dependencies todos_0001 = accounts_0001 ∷ []

unfoldable pub operations : Migration → List Operation
operations accounts_0001 = create_model user user_columns ∷ []
operations todos_0001 = create_model todo todo_columns ∷ []

abbrev pub migration_number : Migration → ℕ
migration_number accounts_0001 = 0
migration_number todos_0001 = 1

abbrev pub project : Project
project = record {
  Migration = Migration;
  number = migration_number;
  dependencies = dependencies;
  operations = operations;
}

abbrev has : Migration → List Migration → Bool
has m applied = is_applied project m applied

module _ (django : Executor) where
  open django use {Schema, columns_of}

  record Reached (applied : List Migration) (s : Schema) : Type 0 where
    users : columns_of s user ≡ (if has accounts_0001 applied then some user_columns else none)
    todos : columns_of s todo ≡ (if has todos_0001 applied then some todo_columns else none)

  applies :
      (m : Migration) (applied : List Migration) (s : Schema)
      → Reached applied s
      → may_follow project m applied ≡ true
      → (s' : Schema) × (apply_all django (operations m) s ≡ some s') × Reached (m ∷ applied) s'
  unfolding dependencies operations
  applies accounts_0001 applied s h q =
      let absent : columns_of s user ≡ none = ground (arith, h.users) in
      let (s', ran, now) = create-single django user user_columns s absent refl in
      (s', ran, record { users = now user; todos = now todo ∙ h.todos })
  applies todos_0001 applied s h q =
      let absent : columns_of s todo ≡ none = ground (arith, h.todos) in
      let author : is_some (columns_of s user) ≡ true = ground (arith, h.users) in
      let (s', ran, now) = create-single django todo todo_columns s absent (rw author refl) in
      (s', ran, record { users = now user ∙ h.users; todos = now todo })

  -- In every order that the dependencies allow no migration fails; once that of `todos` is among them,
  -- its table has the columns that models.py declares.
  todos-is_plan :
      (plan : List Migration)
      → is_plan project [] plan ≡ true
      → is_applied project todos_0001 plan ≡ true
      → (s : Schema) × (columns : Columns) × (migrate django project plan django.empty ≡ some s)
        × (columns_of s todo ≡ some columns)
        × ((n : Name) → kind_of n columns ≡ kind_of n todo_model)
  todos-is_plan plan q last =
      let start : Reached [] django.empty = record {
        users = django.columns_of-empty user;
        todos = django.columns_of-empty todo;
      } in
      let (s, ran, h) = migrate_ind django project Reached applies plan [] django.empty start q in
      let added : has todos_0001 (after project plan []) ≡ true =
        ground (arith, is_applied-after project todos_0001 plan []) in
      (s, todo_columns, ran, rw added at h.todos, λ n. refl)
