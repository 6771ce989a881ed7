-- ===== src/Examples/Plans.antt =====
-- A schema as a function, and the migrations of 2022/DB/1006/02_db_workshop_skeleton in an order of
-- their own.
use til.Prelude.{
  ◌≡◌, refl, true, false, ◌&&◌, not, Option, none, some, List, [], ◌∷◌, ◌++◌, if◌then◌else◌,
}
use til.Migrations.{
  Model, user, article, comment, Name, Kind, Columns, kind_of, is_some, same_model, resolves,
  kind_resolves, Operation, create_model, add_field, Executor, is_plan, migrate,
}
use til.Migrations.Blog.{
  Migration, accounts_0001, articles_0001, articles_0002, articles_0003, user_columns,
  article_model, comment_model, dependencies, project,
}
use til.Migrations.Blog.Agreement.{migrate-is_plan}

abbrev Tables : Type 0
Tables = Model → Option Columns

abbrev with_model : Model → Columns → Tables → Tables
with_model m columns s k = if same_model k m then some columns else s k

unfoldable add_column : Model → Name → Kind → Option Columns → Tables → Option Tables
add_column m n kind none s = none
add_column m n kind (some columns) s =
    if not (is_some (kind_of n columns)) && kind_resolves m s kind
    then some (with_model m (columns ++ (n, kind) ∷ []) s)
    else none

unfoldable apply : Operation → Tables → Option Tables
unfolding add_column
apply (create_model m columns) s =
    if not (is_some (s m)) && resolves m s columns then some (with_model m columns s) else none
apply (add_field m (n, kind)) s = add_column m n kind (s m) s

apply-create_model :
    (m : Model) (columns : Columns) (s : Tables)
    → s m ≡ none
    → resolves m s columns ≡ true
    → apply (create_model m columns) s ≡ some (with_model m columns s)
unfolding apply
apply-create_model m columns s e r = rw (e, r) refl

apply-add_field :
    (m : Model) (n : Name) (kind : Kind) (columns : Columns) (s : Tables)
    → s m ≡ some columns
    → kind_of n columns ≡ none
    → kind_resolves m s kind ≡ true
    → apply (add_field m (n, kind)) s ≡ some (with_model m (columns ++ (n, kind) ∷ []) s)
unfolding apply add_column
apply-add_field m n kind columns s e f r = rw (e, f, r) refl

abbrev django : Executor
django = record {
  Schema = Tables;
  empty = λ m. none;
  columns_of = λ s. s;
  apply = apply;
  columns_of-empty = λ m. refl;
  apply-create_model =
      λ m columns s e r. (with_model m columns s, apply-create_model m columns s e r, λ k. refl);
  apply-add_field = λ m n kind columns s e f r. (
    with_model m (columns ++ (n, kind) ∷ []) s,
    apply-add_field m n kind columns s e f r,
    λ k. refl,
  );
}

abbrev plan : List Migration
plan = articles_0001 ∷ articles_0002 ∷ accounts_0001 ∷ articles_0003 ∷ []

plan-is_plan : is_plan project [] plan ≡ true
unfolding is_plan dependencies
plan-is_plan = refl

-- The author cannot come before the users.
test_no_plan : is_plan project [] (articles_0001 ∷ articles_0002 ∷ articles_0003 ∷ []) ≡ false
unfolding is_plan dependencies
test_no_plan = refl

migrate-is_plan_example :
    (s : Tables) × (articles comments : Columns) × (migrate django project plan django.empty
      ≡ some s)
    × (s article ≡ some articles)
    × ((n : Name) → kind_of n articles ≡ kind_of n article_model)
    × (s comment ≡ some comments)
    × ((n : Name) → kind_of n comments ≡ kind_of n comment_model)
    × (s user ≡ some user_columns)
migrate-is_plan_example = migrate-is_plan django plan plan-is_plan refl
