-- ===== src/Migrations/Single.antt =====
-- Migrations of one operation.
use til.Prelude.{◌≡◌, refl, true, none, some, [], ◌∷◌, ◌++◌, if◌then◌else◌}
use til.Migrations.{
  Model, Name, Kind, Columns, kind_of, create_model, add_field, resolves, kind_resolves, same_model,
  Operation, Executor, apply_all,
}

module _ (django : Executor) where
  open django use {Schema, columns_of, apply}

  apply_all-single :
      (o : Operation) (s s' : Schema) → apply o s ≡ some s' → apply_all django (o ∷ []) s ≡ some s'
  unfolding apply_all
  apply_all-single o s s' e = rw (e, apply_all) refl

  pub create-single :
      (m : Model) (columns : Columns) (s : Schema)
      → columns_of s m ≡ none
      → resolves m (columns_of s) columns ≡ true
      → (s' : Schema) × (apply_all django (create_model m columns ∷ []) s ≡ some s')
        × ((k : Model)
            → columns_of s' k ≡ (if same_model k m then some columns else columns_of s k))
  create-single m columns s e r =
      let (s', ran, now) = django.apply-create_model m columns s e r in
      (s', apply_all-single (create_model m columns) s s' ran, now)

  pub add-single :
      (m : Model) (n : Name) (kind : Kind) (columns : Columns) (s : Schema)
      → columns_of s m ≡ some columns
      → kind_of n columns ≡ none
      → kind_resolves m (columns_of s) kind ≡ true
      → (s' : Schema) × (apply_all django (add_field m (n, kind) ∷ []) s ≡ some s')
        × ((k : Model)
            → columns_of s' k
              ≡ (if same_model k m then some (columns ++ (n, kind) ∷ []) else columns_of s k))
  add-single m n kind columns s e f r =
      let (s', ran, now) = django.apply-add_field m n kind columns s e f r in
      (s', apply_all-single (add_field m (n, kind)) s s' ran, now)
