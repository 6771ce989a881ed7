-- ===== src/Migrations.antt =====
-- The migrations of the Django projects of 2022/DB as operations on a schema. A plan applies each
-- migration at most once, after those that it depends on. The migrations of Django's own
-- applications are left out. Every foreign key has `on_delete=CASCADE`; defaults, help
-- texts and indexes are left out.
use til.Prelude.{
  ℕ, ◌≡◌, Bool, true, false, ◌&&◌, ◌||◌, not, Option, none, some, List, [], ◌∷◌, ◌++◌, ◌==◌,
  if◌then◌else◌,
}
pub mod Single
pub mod Plans
pub mod Blog
pub mod Todo
pub mod Articles
pub mod Music

-- The models of the projects.
pub data Model : Type 0 where
  user article comment todo artist music : Model

-- Those of django.contrib.auth that a user refers to.
pub data AuthModel : Type 0 where
  group permission : AuthModel

pub data Kind : Type 0 where
  big_auto text_field boolean_field date_time_field null_date_time_field : Kind
  auto_now_add auto_now : Kind
  char_field unique_char_field email_field : (max_length : ℕ) → Kind
  foreign_key : Model → Kind
  many_to_many : AuthModel → Kind

-- The names of the columns.
pub data Name : Type 0 where
  id password last_login is_superuser username first_name last_name email is_staff is_active : Name
  date_joined groups user_permissions title content created_at updated_at article_id user_id : Name
  completed author_id name artist_id : Name

abbrev pub model_number : Model → ℕ
model_number user = 0
model_number article = 1
model_number comment = 2
model_number todo = 3
model_number artist = 4
model_number music = 5

abbrev pub same_model : Model → Model → Bool
same_model a b = model_number a == model_number b

abbrev pub name_number : Name → ℕ
name_number id = 0
name_number password = 1
name_number last_login = 2
name_number is_superuser = 3
name_number username = 4
name_number first_name = 5
name_number last_name = 6
name_number email = 7
name_number is_staff = 8
name_number is_active = 9
name_number date_joined = 10
name_number groups = 11
name_number user_permissions = 12
name_number title = 13
name_number content = 14
name_number created_at = 15
name_number updated_at = 16
name_number article_id = 17
name_number user_id = 18
name_number completed = 19
name_number author_id = 20
name_number name = 21
name_number artist_id = 22

abbrev pub Column : Type 0
Column = Name × Kind

abbrev pub Columns : Type 0
Columns = List Column

-- The kind of the column of a name.
unfoldable pub kind_of : Name → Columns → Option Kind
kind_of n [] = none
kind_of n ((m, k) ∷ rest) = if name_number n == name_number m then some k else kind_of n rest

abbrev pub is_some {ℓ} : {A : Type ℓ} → Option A → Bool
is_some none = false
is_some (some a) = true

abbrev pub kind_resolves : Model → (Model → Option Columns) → Kind → Bool
kind_resolves m tables (foreign_key to) = same_model to m || is_some (tables to)
kind_resolves m tables _ = true

-- A foreign key wants its model to be there.
abbrev pub resolves : Model → (Model → Option Columns) → Columns → Bool
resolves m tables [] = true
resolves m tables ((n, k) ∷ rest) = kind_resolves m tables k && resolves m tables rest

pub data Operation : Type 0 where
  create_model : Model → Columns → Operation
  add_field : Model → Column → Operation

-- Django's schema and its operations. `none` is an error of the migration.
pub record Executor : Type 1 where
  pub Schema : Type 0
  pub empty : Schema
  pub columns_of : Schema → Model → Option Columns
  pub apply : Operation → Schema → Option Schema
  pub columns_of-empty : (m : Model) → columns_of empty m ≡ none
  pub apply-create_model :
      (m : Model) (columns : Columns) (s : Schema)
      → columns_of s m ≡ none
      → resolves m (columns_of s) columns ≡ true
      → (s' : Schema) × (apply (create_model m columns) s ≡ some s')
        × ((k : Model)
            → columns_of s' k ≡ (if same_model k m then some columns else columns_of s k))
  pub apply-add_field :
      (m : Model) (n : Name) (kind : Kind) (columns : Columns) (s : Schema)
      → columns_of s m ≡ some columns
      → kind_of n columns ≡ none
      → kind_resolves m (columns_of s) kind ≡ true
      → (s' : Schema) × (apply (add_field m (n, kind)) s ≡ some s')
        × ((k : Model)
            → columns_of s' k
              ≡ (if same_model k m then some (columns ++ (n, kind) ∷ []) else columns_of s k))

module _ (django : Executor) where
  open django use {Schema, apply}

  unfoldable pub apply_all : List Operation → Schema → Option Schema
  apply_all [] s = some s
  apply_all (o ∷ rest) s = elim (apply o s) [ none ↦ none | some s' ↦ apply_all rest s' ]

-- The migrations of one project.
pub record Project : Type 1 where
  pub Migration : Type 0
  pub number : Migration → ℕ
  pub dependencies : Migration → List Migration
  pub operations : Migration → List Operation

module _ (p : Project) where
  open p use {Migration, number, dependencies, operations}

  abbrev pub is_applied : Migration → List Migration → Bool
  is_applied m [] = false
  is_applied m (n ∷ rest) = number m == number n || is_applied m rest

  abbrev pub are_applied : List Migration → List Migration → Bool
  are_applied [] applied = true
  are_applied (m ∷ rest) applied = is_applied m applied && are_applied rest applied

  -- What may come after the migrations that are applied already.
  unfoldable pub is_plan : List Migration → List Migration → Bool
  is_plan applied [] = true
  is_plan applied (m ∷ rest) =
      (not (is_applied m applied) && are_applied (dependencies m) applied)
      && is_plan (m ∷ applied) rest

module _ (django : Executor) (p : Project) where
  open django use {Schema}
  open p use {Migration, operations}

  unfoldable pub migrate : List Migration → Schema → Option Schema
  unfolding apply_all
  migrate [] s = some s
  migrate (m ∷ rest) s = elim (apply_all django (operations m) s) [
    | none ↦ none
    | some s' ↦ migrate rest s'
  ]
