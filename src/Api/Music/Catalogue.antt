-- ===== src/Api/Music/Catalogue.antt =====
-- The database invariant and the catalogue of the music interface of 2022/DB/1018.
use mathlib.Core.List.Memᴰ
use mathlib.Core.List.{Memᴰ}
use til.Prelude.{
  ℕ, ◌≡◌, ◌≤◌, refl, sym, ap, ◌∙◌, subst, Option, none, some, List, [], ◌∷◌, ◌==◌, map, length,
  Bool-cases, inl, inr, arith,
}
use til.Django.{Method, get, head, post, put, delete, options, trace, other, is_in, same_method}
use til.Django.Tables.{insert_self, insert_keeps, insert_cases, update_cases, remove_cases}
use til.Api.{ok_200, created_201, Framework}
use til.Api.Music.{
  Text, name_max, title_max, Artist, Music, Backend, Content, artist_data, music_data, Store,
  Request, music_set, show_artist, Answer, list_artists, post_artist, artist_cr_body, artist_cr,
  post_music, music_create, list_music, music_all, artist_found, artist_rud, put_music, music_found,
  music_detail, Route, artists_url, musics_url, artist_url, music_url, artist_music_url, serve,
}

module _ (dj : Backend) where
  open dj use {artists, musics}

  pub record IsCatalogue (store : Store dj) : Type 0 where
    pub performer :
        (k : ℕ) (m : Music)
        → musics.find k store.music_rows ≡ some m
        → (a : Artist) × (artists.find m.artist store.artist_rows ≡ some a)
    pub name_fits :
        (k : ℕ) (a : Artist) → artists.find k store.artist_rows ≡ some a → length a.name ≤ name_max
    pub title_fits :
        (k : ℕ) (m : Music) → musics.find k store.music_rows ≡ some m → length m.title ≤ title_max

module _ (dj : Backend) (drf : Framework (Store dj) Content) where
  open dj use {
    Body, artists, musics, artist_valid, artist_valid_fits, music_valid, music_valid_fits,
  }

  abbrev Keeps : Answer dj drf → Type 0
  Keeps answer = IsCatalogue dj answer.1

  api_view-Keeps :
      (ms : List Method) (m : Method) (view : Store dj → Answer dj drf) (store : Store dj)
      → IsCatalogue dj store
      → Keeps (view store)
      → Keeps (drf.api_view ms m view store)
  api_view-Keeps ms m view store h p = elim (Bool-cases (is_in m ms)) [
    | inl here ↦ subst Keeps (sym (drf.method_in ms m view store here)) p
    | inr out ↦ subst (IsCatalogue dj) (sym (drf.method_out ms m view store out)) h
  ]

  module _ (store : Store dj) (h : IsCatalogue dj store) where
    list_artists-Keeps : (l : List (ℕ × Artist)) → Keeps (list_artists dj drf l store)
    unfolding list_artists
    list_artists-Keeps [] = h
    list_artists-Keeps (row ∷ rows) = h

    list_music-Keeps : (l : List (ℕ × Music)) → Keeps (list_music dj drf l store)
    unfolding list_music
    list_music-Keeps [] = h
    list_music-Keeps (row ∷ rows) = h

    post_artist-Keeps :
        (form : Option Text)
        → ((name : Text) → form ≡ some name → length name ≤ name_max)
        → Keeps (post_artist dj drf form store)
    unfolding post_artist
    post_artist-Keeps none fits = h
    post_artist-Keeps (some name) fits = record {
      performer = λ k m e.
          let (a, found) = h.performer k m e in
          (a, insert_keeps artists m.artist _ a store.artist_rows found);
      name_fits = λ k a e. elim (insert_cases artists k _ a store.artist_rows e) [
        | inl new ↦ rw new (fits name refl)
        | inr old ↦ h.name_fits k a old
      ];
      title_fits = h.title_fits;
    }

    cr_body-Keeps : (m : Method) (r : Request dj) → Keeps (artist_cr_body dj drf m r store)
    unfolding artist_cr_body
    cr_body-Keeps get r = list_artists-Keeps _
    cr_body-Keeps post r = post_artist-Keeps (artist_valid r.body) (artist_valid_fits r.body)
    cr_body-Keeps head r = h
    cr_body-Keeps put r = h
    cr_body-Keeps delete r = h
    cr_body-Keeps options r = h
    cr_body-Keeps trace r = h
    cr_body-Keeps other r = h

    post_music-Keeps :
        (o : Option Artist) (form : Option Text) (pk : ℕ)
        → artists.find pk store.artist_rows ≡ o
        → ((title : Text) → form ≡ some title → length title ≤ title_max)
        → Keeps (post_music dj drf o form pk store)
    unfolding post_music
    post_music-Keeps none form pk e fits = h
    post_music-Keeps (some a) none pk e fits = h
    post_music-Keeps (some a) (some title) pk e fits = record {
      performer = λ k d f. elim (insert_cases musics k _ d store.music_rows f) [
        | inl new ↦ (a, rw new e)
        | inr old ↦ h.performer k d old
      ];
      name_fits = h.name_fits;
      title_fits = λ k d f. elim (insert_cases musics k _ d store.music_rows f) [
        | inl new ↦ rw new (fits title refl)
        | inr old ↦ h.title_fits k d old
      ];
    }

    artist_found-Keeps : (pk : ℕ) (o : Option Artist) → Keeps (artist_found dj drf pk o store)
    unfolding artist_found
    artist_found-Keeps pk none = h
    artist_found-Keeps pk (some a) = h

    put_music-Keeps :
        (form : Option Text) (pk : ℕ) (m : Music)
        → musics.find pk store.music_rows ≡ some m
        → ((title : Text) → form ≡ some title → length title ≤ title_max)
        → Keeps (put_music dj drf form pk m store)
    unfolding put_music
    put_music-Keeps none pk m found fits = h
    put_music-Keeps (some title) pk m found fits = record {
      performer = λ k d e. elim (update_cases musics k pk _ d store.music_rows e) [
        | inl (_, new) ↦ rw new (h.performer pk m found)
        | inr old ↦ h.performer k d old
      ];
      name_fits = h.name_fits;
      title_fits = λ k d e. elim (update_cases musics k pk _ d store.music_rows e) [
        | inl (_, new) ↦ rw new (fits title refl)
        | inr old ↦ h.title_fits k d old
      ];
    }

    music_found-Keeps :
        (m : Method) (r : Request dj) (pk : ℕ) (o : Option Music)
        → musics.find pk store.music_rows ≡ o
        → Keeps (music_found dj drf m r pk o store)
    unfolding music_found
    music_found-Keeps m r pk none e = h
    music_found-Keeps get r pk (some c) e = h
    music_found-Keeps put r pk (some c) e =
        put_music-Keeps (music_valid r.body) pk c e (music_valid_fits r.body)
    music_found-Keeps delete r pk (some c) e = record {
      performer = λ k d f. h.performer k d (remove_cases musics k _ d store.music_rows f).0;
      name_fits = h.name_fits;
      title_fits = λ k d f. h.title_fits k d (remove_cases musics k _ d store.music_rows f).0;
    }
    music_found-Keeps post r pk (some c) e = h
    music_found-Keeps head r pk (some c) e = h
    music_found-Keeps options r pk (some c) e = h
    music_found-Keeps trace r pk (some c) e = h
    music_found-Keeps other r pk (some c) e = h

  -- If each piece of music has an artist that exists, and every name and title fits its column, so it
  -- is after any request of the music interface.
  pub serve-IsCatalogue :
      (route : Route) (r : Request dj) (store : Store dj)
      → IsCatalogue dj store
      → IsCatalogue dj (serve dj drf route r store).1
  unfolding serve artist_cr music_create music_all artist_rud music_detail
  serve-IsCatalogue artists_url r store h =
      api_view-Keeps _ r.method _ store h (cr_body-Keeps store h r.method r)
  serve-IsCatalogue musics_url r store h =
      api_view-Keeps _ r.method _ store h (list_music-Keeps store h _)
  serve-IsCatalogue (artist_url pk) r store h =
      api_view-Keeps _ r.method _ store h (artist_found-Keeps store h pk _)
  serve-IsCatalogue (music_url pk) r store h =
      api_view-Keeps _ r.method _ store h (music_found-Keeps store h r.method r pk _ refl)
  serve-IsCatalogue (artist_music_url pk) r store h =
      api_view-Keeps _ r.method _ store h
        (post_music-Keeps store h _ (music_valid r.body) pk refl (music_valid_fits r.body))

  -- Music that is posted under an artist is answered by 201; reading the artist then lists its key
  -- in `music_set`, and `music_count` is the length of that list.
  pub artist_rud-music_create :
      (body any : Body) (pk : ℕ) (a : Artist) (title : Text) (store : Store dj)
      → artists.find pk store.artist_rows ≡ some a
      → music_valid body ≡ some title
      → (id : ℕ) × (store' : Store dj) × (set : List ℕ) × (music_create dj drf
            (record { method = post; body = body })
            pk
            store
          ≡ (created_201 (music_data id pk title), store'))
        × (artist_rud dj drf (record { method = get; body = any }) pk store'
            ≡ (ok_200 (artist_data pk a.name set (length set)), store'))
        × Memᴰ id set
  unfolding music_create post_music artist_rud artist_found show_artist music_set is_in same_method
  artist_rud-music_create body any pk a title store found valid =
      let m : Music = record { artist = pk; title = title } in
      let (id, rows) = musics.insert m store.music_rows in
      let store' : Store dj = record store { music_rows = rows } in
      let rows' = musics.select (λ k x. x.artist == pk) rows in
      (
        id,
        store',
        map (λ row. row.0) rows',
        drf.method_in _ post _ store refl
            ∙ ap (λ x. post_music dj drf x (music_valid body) pk store) found
            ∙ ap (λ x. post_music dj drf (some a) x pk store) valid,
        drf.method_in _ get _ store' refl ∙ ap (λ x. artist_found dj drf pk x store') found,
        Memᴰ.map (λ row. row.0)
            ((musics.select_iff id m _ rows).1
              (insert_self musics m store.music_rows, ground arith)),
      )
