-- ===== src/Migrations/Music.antt =====
-- 2022/DB/1018: the migration of `music`, and the columns that its models.py declares.
use til.Prelude.{◌≡◌, refl, ◌∙◌, some, List, [], ◌∷◌, arith}
use til.Migrations.{
  artist, music, big_auto, char_field, foreign_key, Name, kind_of, id, name, title, artist_id,
  Columns, Executor, Operation, create_model, Project, migrate, apply_all,
}

pub data Migration : Type 0 where
  music_0001 : Migration

-- migrations/0001_initial.py
abbrev pub artist_columns : Columns
artist_columns = (id, big_auto) ∷ (name, char_field 200) ∷ []

abbrev pub music_columns : Columns
music_columns = (id, big_auto) ∷ (title, char_field 200) ∷ (artist_id, foreign_key artist) ∷ []

-- models.py
abbrev pub artist_model : Columns
artist_model = (id, big_auto) ∷ (name, char_field 200) ∷ []

abbrev pub music_model : Columns
music_model = (id, big_auto) ∷ (artist_id, foreign_key artist) ∷ (title, char_field 200) ∷ []

unfoldable pub dependencies : Migration → List Migration
dependencies music_0001 = []

unfoldable pub operations : Migration → List Operation
operations music_0001 = create_model artist artist_columns ∷ create_model music music_columns ∷ []

abbrev pub project : Project
project = record {
  Migration = Migration;
  number = λ m. 0;
  dependencies = dependencies;
  operations = operations;
}

music-kinds : (n : Name) → kind_of n music_columns ≡ kind_of n music_model
unfolding kind_of
music-kinds n = ground arith

-- The migration does not fail, and both tables have the columns that models.py declares.
module _ (django : Executor) where
  open django use {Schema, columns_of}

  migrate-music :
      (s : Schema) × (artists musics : Columns) × (migrate django project
          (music_0001 ∷ [])
          django.empty
        ≡ some s)
      × (columns_of s artist ≡ some artists)
      × ((n : Name) → kind_of n artists ≡ kind_of n artist_model)
      × (columns_of s music ≡ some musics)
      × ((n : Name) → kind_of n musics ≡ kind_of n music_model)
  unfolding migrate operations apply_all
  migrate-music =
      let (s1, ran1, now1) =
        django.apply-create_model artist artist_columns django.empty
          (django.columns_of-empty artist) refl in
      let there : columns_of s1 artist ≡ some artist_columns = now1 artist in
      let (s2, ran2, now2) =
        django.apply-create_model music music_columns s1
          (now1 music ∙ django.columns_of-empty music) (rw there refl) in
      (
        s2,
        artist_columns,
        music_columns,
        rw (ran1, apply_all, ran2, apply_all) refl,
        now2 artist ∙ there,
        λ n. refl,
        now2 music,
        music-kinds,
      )
