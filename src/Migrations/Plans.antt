-- ===== src/Migrations/Plans.antt =====
-- What holds after every migration of a plan.
use til.Prelude.{◌≡◌, refl, Bool, true, ◌&&◌, ◌||◌, not, some, List, [], ◌∷◌, arith}
use til.Migrations.{Executor, Project, apply_all, is_applied, are_applied, is_plan, migrate}

module _ (p : Project) where
  open p use {Migration, dependencies}

  abbrev pub may_follow : Migration → List Migration → Bool
  may_follow m applied = not (is_applied p m applied) && are_applied p (dependencies m) applied

  unfoldable pub after : List Migration → List Migration → List Migration
  after [] applied = applied
  after (m ∷ plan) applied = after plan (m ∷ applied)

  pub is_applied-after :
      (m : Migration) (plan applied : List Migration)
      → is_applied p m (after plan applied) ≡ is_applied p m plan || is_applied p m applied
  unfolding after
  is_applied-after m [] applied = refl
  is_applied-after m (n ∷ plan) applied = ground (arith, is_applied-after m plan (n ∷ applied))

module _ (django : Executor) (p : Project) where
  open django use {Schema}
  open p use {Migration, operations}

  -- A property of the schema that each migration which may follow keeps, and does not fail on.
  pub migrate_ind :
      (P : List Migration → Schema → Type 0)
      → ((m : Migration) (applied : List Migration) (s : Schema)
          → P applied s
          → may_follow p m applied ≡ true
          → (s' : Schema) × (apply_all django (operations m) s ≡ some s') × P (m ∷ applied) s')
      → (plan applied : List Migration) (s : Schema) → P applied s
      → is_plan p applied plan ≡ true
      → (s' : Schema) × (migrate django p plan s ≡ some s') × P (after p plan applied) s'
  unfolding is_plan migrate after
  migrate_ind P applies [] applied s h q = (s, refl, h)
  migrate_ind P applies (m ∷ plan) applied s h q =
      let both : (may_follow p m applied ≡ true) × (is_plan p (m ∷ applied) plan ≡ true) =
        ground arith in
      let (s1, ran, there) = applies m applied s h both.0 in
      let (s2, rest, end) = migrate_ind P applies plan (m ∷ applied) s1 there both.1 in
      (s2, rw (ran, migrate) rest, end)
