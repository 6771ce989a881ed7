-- ===== src/Migrations/Articles.antt =====
-- 2022/DB/1017: the migrations of `articles`, and the columns that its models.py declares.
use til.Prelude.{ℕ, ◌≡◌, refl, ◌∙◌, Bool, true, none, some, List, [], ◌∷◌, if◌then◌else◌, arith}
use til.Migrations.{
  article, comment, big_auto, text_field, auto_now_add, auto_now, char_field, foreign_key, Name,
  kind_of, id, title, content, created_at, updated_at, article_id, Columns, Executor, is_some,
  Operation, create_model, Project, is_applied, is_plan, migrate, apply_all,
}
use til.Migrations.Single.{create-single}
use til.Migrations.Plans.{may_follow, after, is_applied-after, migrate_ind}

pub data Migration : Type 0 where
  articles_0001 articles_0002 : Migration

-- migrations/0001_initial.py
abbrev pub article_columns : Columns
article_columns =
    (id, big_auto)
    ∷ (title, char_field 200)
    ∷ (content, text_field)
    ∷ (created_at, auto_now_add)
    ∷ (updated_at, auto_now)
    ∷ []

-- migrations/0002_comment.py
abbrev pub comment_columns : Columns
comment_columns =
    (id, big_auto)
    ∷ (content, text_field)
    ∷ (created_at, auto_now_add)
    ∷ (updated_at, auto_now)
    ∷ (article_id, foreign_key article)
    ∷ []

-- models.py
abbrev pub article_model : Columns
article_model =
    (id, big_auto)
    ∷ (title, char_field 200)
    ∷ (content, text_field)
    ∷ (created_at, auto_now_add)
    ∷ (updated_at, auto_now)
    ∷ []

abbrev pub comment_model : Columns
comment_model =
    (id, big_auto)
    ∷ (article_id, foreign_key article)
    ∷ (content, text_field)
    ∷ (created_at, auto_now_add)
    ∷ (updated_at, auto_now)
    ∷ []

unfoldable pub dependencies : Migration → List Migration
dependencies articles_0001 = []
dependencies articles_0002 = articles_0001 ∷ []

unfoldable pub operations : Migration → List Operation
operations articles_0001 = create_model article article_columns ∷ []
operations articles_0002 = create_model comment comment_columns ∷ []

abbrev pub migration_number : Migration → ℕ
migration_number articles_0001 = 0
migration_number articles_0002 = 1

abbrev pub project : Project
project = record {
  Migration = Migration;
  number = migration_number;
  dependencies = dependencies;
  operations = operations;
}

abbrev has : Migration → List Migration → Bool
has m applied = is_applied project m applied

comment-kinds : (n : Name) → kind_of n comment_columns ≡ kind_of n comment_model
unfolding kind_of
comment-kinds n = ground arith

module _ (django : Executor) where
  open django use {Schema, columns_of}

  record Reached (applied : List Migration) (s : Schema) : Type 0 where
    articles :
        columns_of s article ≡ (if has articles_0001 applied then some article_columns else none)
    comments :
        columns_of s comment ≡ (if has articles_0002 applied then some comment_columns else none)
    before_0002 : has articles_0002 applied ≡ true → has articles_0001 applied ≡ true

  applies :
      (m : Migration) (applied : List Migration) (s : Schema)
      → Reached applied s
      → may_follow project m applied ≡ true
      → (s' : Schema) × (apply_all django (operations m) s ≡ some s') × Reached (m ∷ applied) s'
  unfolding dependencies operations
  applies articles_0001 applied s h q =
      let absent : columns_of s article ≡ none = ground (arith, h.articles) in
      let (s', ran, now) = create-single django article article_columns s absent refl in
      (
        s',
        ran,
        record {
          articles = now article;
          comments = now comment ∙ h.comments;
          before_0002 = λ e. refl;
        },
      )
  applies articles_0002 applied s h q =
      let absent : columns_of s comment ≡ none = ground (arith, h.comments) in
      let there : is_some (columns_of s article) ≡ true = ground (arith, h.articles) in
      let (s', ran, now) = create-single django comment comment_columns s absent (rw there refl) in
      (
        s',
        ran,
        record {
          articles = now article ∙ h.articles;
          comments = now comment;
          before_0002 = λ e. ground arith;
        },
      )

  -- In every order that the dependencies allow no migration fails; once the last is among them, both
  -- tables have the columns that models.py declares.
  articles-is_plan :
      (plan : List Migration)
      → is_plan project [] plan ≡ true
      → is_applied project articles_0002 plan ≡ true
      → (s : Schema) × (articles comments : Columns) × (migrate django project plan django.empty
          ≡ some s)
        × (columns_of s article ≡ some articles)
        × ((n : Name) → kind_of n articles ≡ kind_of n article_model)
        × (columns_of s comment ≡ some comments)
        × ((n : Name) → kind_of n comments ≡ kind_of n comment_model)
  articles-is_plan plan q last =
      let start : Reached [] django.empty = record {
        articles = django.columns_of-empty article;
        comments = django.columns_of-empty comment;
        before_0002 = λ e. e;
      } in
      let (s, ran, h) = migrate_ind django project Reached applies plan [] django.empty start q in
      let added : has articles_0002 (after project plan []) ≡ true =
        ground (arith, is_applied-after project articles_0002 plan []) in
      (
        s,
        article_columns,
        comment_columns,
        ran,
        rw (h.before_0002 added) at h.articles,
        λ n. refl,
        rw added at h.comments,
        comment-kinds,
      )
