-- ===== src/Migrations/Blog/Agreement.antt =====
-- Every order of the migrations of 2022/DB/1006/02_db_workshop_skeleton that their dependencies allow.
use til.Prelude.{◌≡◌, refl, ◌∙◌, Bool, true, none, some, List, [], ◌∷◌, ◌++◌, if◌then◌else◌, arith}
use til.Migrations.{
  user, article, comment, Name, kind_of, Columns, Executor, apply_all, is_applied, is_plan, migrate,
  is_some, user_id, foreign_key,
}
use til.Migrations.Single.{create-single, add-single}
use til.Migrations.Plans.{may_follow, after, is_applied-after, migrate_ind}
use til.Migrations.Blog.{
  Migration, accounts_0001, articles_0001, articles_0002, articles_0003, user_columns,
  first_articles, first_comments, article_model, comment_model, dependencies, operations, project,
}

abbrev has : Migration → List Migration → Bool
has m applied = is_applied project m applied

article-no_user : kind_of user_id first_articles ≡ none
unfolding kind_of
article-no_user = refl

comment-kinds : (n : Name) → kind_of n first_comments ≡ kind_of n comment_model
unfolding kind_of
comment-kinds n = ground arith

module _ (django : Executor) where
  open django use {Schema, columns_of}

  -- The tables after these migrations, which hold all that they depend on.
  record Reached (applied : List Migration) (s : Schema) : Type 0 where
    users : columns_of s user ≡ (if has accounts_0001 applied then some user_columns else none)
    articles : columns_of s article ≡ (
        if has articles_0003 applied
        then some (first_articles ++ (user_id, foreign_key user) ∷ [])
        else if has articles_0001 applied
        then some first_articles
        else none)
    comments :
        columns_of s comment ≡ (if has articles_0002 applied then some first_comments else none)
    before_0002 : has articles_0002 applied ≡ true → has articles_0001 applied ≡ true
    before_0003 : has articles_0003 applied ≡ true → has articles_0002 applied ≡ true
    users_0003 : has articles_0003 applied ≡ true → has accounts_0001 applied ≡ true

  abbrev Applies : Migration → List Migration → Schema → Type 0
  Applies m applied s =
      (s' : Schema) × (apply_all django (operations m) s ≡ some s') × Reached (m ∷ applied) s'

  applies :
      (m : Migration) (applied : List Migration) (s : Schema)
      → Reached applied s
      → may_follow project m applied ≡ true
      → Applies m applied s
  unfolding dependencies operations
  applies accounts_0001 applied s h q =
      let absent : columns_of s user ≡ none = ground (arith, h.users) in
      let (s', ran, now) = create-single django user user_columns s absent refl in
      (
        s',
        ran,
        record {
          users = now user;
          articles = now article ∙ h.articles;
          comments = now comment ∙ h.comments;
          before_0002 = h.before_0002;
          before_0003 = h.before_0003;
          users_0003 = λ e. refl;
        },
      )
  applies articles_0001 applied s h q =
      let absent : columns_of s article ≡ none =
        ground (arith, h.articles, h.before_0002, h.before_0003) in
      let (s', ran, now) = create-single django article first_articles s absent refl in
      (
        s',
        ran,
        record {
          users = now user ∙ h.users;
          articles = now article ∙ ground (arith, h.before_0002, h.before_0003);
          comments = now comment ∙ h.comments;
          before_0002 = λ e. refl;
          before_0003 = h.before_0003;
          users_0003 = h.users_0003;
        },
      )
  applies articles_0002 applied s h q =
      let absent : columns_of s comment ≡ none = ground (arith, h.comments) in
      let there : is_some (columns_of s article) ≡ true = ground (arith, h.articles) in
      let (s', ran, now) = create-single django comment first_comments s absent (rw there refl) in
      (
        s',
        ran,
        record {
          users = now user ∙ h.users;
          articles = now article ∙ h.articles;
          comments = now comment;
          before_0002 = λ e. ground arith;
          before_0003 = λ e. refl;
          users_0003 = h.users_0003;
        },
      )
  applies articles_0003 applied s h q =
      let there : columns_of s article ≡ some first_articles =
        ground (arith, h.articles, h.before_0002) in
      let author : is_some (columns_of s user) ≡ true = ground (arith, h.users) in
      let (s', ran, now) =
        add-single django article user_id (foreign_key user) first_articles s there
          (article-no_user) (rw author refl) in
      (
        s',
        ran,
        record {
          users = now user ∙ h.users;
          articles = now article;
          comments = now comment ∙ h.comments;
          before_0002 = h.before_0002;
          before_0003 = λ e. ground arith;
          users_0003 = λ e. ground arith;
        },
      )

  -- Whatever order the migrations are applied in, if each comes after those that it depends on, none
  -- fails; once the last of `articles` is among them, the tables of the articles and of the comments
  -- have the columns that models.py declares, name by name, and the table of the users is there.
  pub migrate-is_plan :
      (plan : List Migration)
      → is_plan project [] plan ≡ true
      → is_applied project articles_0003 plan ≡ true
      → (s : Schema) × (articles comments : Columns) × (migrate django project plan django.empty
          ≡ some s)
        × (columns_of s article ≡ some articles)
        × ((n : Name) → kind_of n articles ≡ kind_of n article_model)
        × (columns_of s comment ≡ some comments)
        × ((n : Name) → kind_of n comments ≡ kind_of n comment_model)
        × (columns_of s user ≡ some user_columns)
  migrate-is_plan plan q last =
      let start : Reached [] django.empty = record {
        users = django.columns_of-empty user;
        articles = django.columns_of-empty article;
        comments = django.columns_of-empty comment;
        before_0002 = λ e. e;
        before_0003 = λ e. e;
        users_0003 = λ e. e;
      } in
      let (s, ran, h) = migrate_ind django project Reached applies plan [] django.empty start q in
      let added : has articles_0003 (after project plan []) ≡ true =
        ground (arith, is_applied-after project articles_0003 plan []) in
      let third = h.before_0003 added in
      (
        s,
        first_articles ++ (user_id, foreign_key user) ∷ [],
        first_comments,
        ran,
        rw added at h.articles,
        λ n. refl,
        rw third at h.comments,
        comment-kinds,
        rw (h.users_0003 added) at h.users,
      )
