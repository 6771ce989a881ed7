-- ===== src/Api/Music.antt =====
-- 2022/DB/1018: models.py, serializers.py, views.py and urls.py of `music`.
use til.Prelude.{ℕ, ◌≡◌, ◌≤◌, true, Option, none, some, List, [], ◌∷◌, map, length, ◌==◌}
use til.Django.{Method, get, post, put, delete, Table}
use til.Api.{
  Reply, ok_200, created_201, no_content_204, bad_request_400, not_found_404, server_error,
  Framework,
}
pub mod Catalogue
pub mod Routing

abbrev pub Text : Type 0
Text = List ℕ

pub record Artist : Type 0 where
  pub name : Text

pub record Music : Type 0 where
  pub artist : ℕ
  pub title : Text

-- `max_length` of `Artist.name`
abbrev pub name_max : ℕ
name_max = 200

-- `max_length` of `Music.title`
abbrev pub title_max : ℕ
title_max = 200

-- The tables, and the serializers as what `is_valid` leaves in `validated_data`, or `none`. The
-- validators of a model serializer are those of the model's fields, the length among them. In the
-- MusicSerializer `artist` is read-only.
pub record Backend : Type 1 where
  pub Body : Type 0
  pub artists : Table Artist
  pub musics : Table Music
  pub artist_valid : Body → Option Text
  pub artist_valid_fits :
      (body : Body) (name : Text) → artist_valid body ≡ some name → length name ≤ name_max
  pub music_valid : Body → Option Text
  pub music_valid_fits :
      (body : Body) (title : Text) → music_valid body ≡ some title → length title ≤ title_max

pub data Content : Type 0 where
  artist_list music_list : List (ℕ × Text) → Content
  artist_data : (id : ℕ) (name : Text) (music_set : List ℕ) (music_count : ℕ) → Content
  music_data : (id artist : ℕ) (title : Text) → Content

-- urls.py
pub data Route : Type 0 where
  artists_url musics_url : Route
  artist_url music_url artist_music_url : ℕ → Route

module _ (dj : Backend) where
  open dj use {Body, artists, musics}

  pub record Store : Type 0 where
    pub artist_rows : artists.Rows
    pub music_rows : musics.Rows

  pub record Request : Type 0 where
    pub method : Method
    pub body : Body

  -- `music_set`: the primary keys of the music of an artist.
  unfoldable pub music_set : ℕ → Store → List ℕ
  music_set pk store = map (λ row. row.0) (musics.select (λ k m. m.artist == pk) store.music_rows)

  -- ArtistSerializer
  unfoldable pub show_artist : ℕ → Artist → Store → Content
  unfolding music_set
  show_artist pk a store = artist_data pk a.name (music_set pk store) (length (music_set pk store))

  -- MusicSerializer
  abbrev pub show_music : ℕ → Music → Content
  show_music pk m = music_data pk m.artist m.title

module _ (dj : Backend) (drf : Framework (Store dj) Content) where
  open dj use {artists, musics, artist_valid, music_valid}
  open drf use {api_view}

  abbrev pub Answer : Type 0
  Answer = Reply Content × Store dj

  -- `get_list_or_404(Artist)` and the ArtistListSerializer
  unfoldable pub list_artists : List (ℕ × Artist) → Store dj → Answer
  list_artists [] store = (not_found_404, store)
  list_artists (row ∷ rows) store =
      (ok_200 (artist_list (map (λ x. (x.0, x.1.name)) (row ∷ rows))), store)

  unfoldable pub post_artist : Option Text → Store dj → Answer
  unfolding show_artist
  post_artist none store = (bad_request_400, store)
  post_artist (some name) store =
      let a : Artist = record { name = name } in
      let (pk, rows) = artists.insert a store.artist_rows in
      let store' : Store dj = record store { artist_rows = rows } in
      (created_201 (show_artist dj pk a store'), store')

  unfoldable pub artist_cr_body : Method → Request dj → Store dj → Answer
  unfolding list_artists post_artist
  artist_cr_body get r store = list_artists (artists.select (λ k a. true) store.artist_rows) store
  artist_cr_body post r store = post_artist (artist_valid r.body) store
  artist_cr_body _ r store = (server_error, store)

  unfoldable pub artist_cr : Request dj → Store dj → Answer
  unfolding artist_cr_body
  artist_cr r = api_view (get ∷ post ∷ []) r.method (artist_cr_body r.method r)

  -- `Artist.objects.get` raises DoesNotExist, which is no 404.
  unfoldable pub post_music : Option Artist → Option Text → ℕ → Store dj → Answer
  post_music none form pk store = (server_error, store)
  post_music (some a) none pk store = (bad_request_400, store)
  post_music (some a) (some title) pk store =
      let m : Music = record { artist = pk; title = title } in
      let (id, rows) = musics.insert m store.music_rows in
      (created_201 (show_music dj id m), record store { music_rows = rows })

  unfoldable pub music_create : Request dj → ℕ → Store dj → Answer
  unfolding post_music
  music_create r pk =
      api_view (post ∷ []) r.method
        λ store. post_music (artists.find pk store.artist_rows) (music_valid r.body) pk store

  -- `get_list_or_404(Music)` and the MusicListSerializer
  unfoldable pub list_music : List (ℕ × Music) → Store dj → Answer
  list_music [] store = (not_found_404, store)
  list_music (row ∷ rows) store =
      (ok_200 (music_list (map (λ x. (x.0, x.1.title)) (row ∷ rows))), store)

  unfoldable pub music_all : Request dj → Store dj → Answer
  unfolding list_music
  music_all r =
      api_view (get ∷ []) r.method
        λ store. list_music (musics.select (λ k m. true) store.music_rows) store

  unfoldable pub artist_found : ℕ → Option Artist → Store dj → Answer
  unfolding show_artist
  artist_found pk none store = (not_found_404, store)
  artist_found pk (some a) store = (ok_200 (show_artist dj pk a store), store)

  unfoldable pub artist_rud : Request dj → ℕ → Store dj → Answer
  unfolding artist_found
  artist_rud r pk =
      api_view (get ∷ []) r.method
        λ store. artist_found pk (artists.find pk store.artist_rows) store

  unfoldable pub put_music : Option Text → ℕ → Music → Store dj → Answer
  put_music none pk m store = (bad_request_400, store)
  put_music (some title) pk m store =
      let m' = record m { title = title } in
      (
        ok_200 (show_music dj pk m'),
        record store { music_rows = musics.update pk m' store.music_rows },
      )

  unfoldable pub music_found : Method → Request dj → ℕ → Option Music → Store dj → Answer
  unfolding put_music
  music_found method r pk none store = (not_found_404, store)
  music_found get r pk (some m) store = (ok_200 (show_music dj pk m), store)
  music_found put r pk (some m) store = put_music (music_valid r.body) pk m store
  music_found delete r pk (some m) store = (
    no_content_204 pk,
    record store { music_rows = musics.remove (λ k x. k == pk) store.music_rows },
  )
  music_found _ r pk (some m) store = (server_error, store)

  unfoldable pub music_detail : Request dj → ℕ → Store dj → Answer
  unfolding music_found
  music_detail r pk =
      api_view (get ∷ put ∷ delete ∷ []) r.method
        λ store. music_found r.method r pk (musics.find pk store.music_rows) store

  unfoldable pub serve : Route → Request dj → Store dj → Answer
  serve artists_url r = artist_cr r
  serve musics_url r = music_all r
  serve (artist_url pk) r = artist_rud r pk
  serve (music_url pk) r = music_detail r pk
  serve (artist_music_url pk) r = music_create r pk
