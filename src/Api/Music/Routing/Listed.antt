-- ===== src/Api/Music/Routing/Listed.antt =====
-- Music that is posted to the path of an artist.
use mathlib.Core.List.{Memᴰ}
use til.Prelude.{ℕ, ◌≡◌, refl, ap, ◌∙◌, Option, some, List, length}
use til.Django.{Text, get, post}
use til.Django.Urls.{IsNumeral, Resolver, Served}
use til.Api.{ok_200, created_201, Framework}
use til.Api.Music.{
  Artist, Backend, Content, artist_data, music_data, Store, Request, Answer, Route, artist_url,
  artist_music_url, serve,
}
use til.Api.Music.Catalogue.{artist_rud-music_create}
use til.Api.Music.Routing.{address, IsAddress, answer, dispatch, resolve_music-IsAddress}

module _ (dj : Backend) (drf : Framework (Store dj) Content) {Admin : Type 0}
    (django : Resolver (Served Admin Route)) (admin : Text → Option Admin)
    (admin_view : Admin → Request dj → Store dj → Answer dj drf) where
  open dj use {Body, artists, music_valid}

  dispatch-serve :
      (route : Route) (text : Text) (r : Request dj) (store : Store dj)
      → IsAddress route text
      → dispatch dj drf django admin admin_view text r store ≡ serve dj drf route r store
  unfolding dispatch answer
  dispatch-serve route text r store h =
      ap (λ o. answer dj drf django admin admin_view o r store)
        ((resolve_music-IsAddress django admin route text).1 h)

  -- Valid music that is posted to the music path of an artist is answered by 201; a GET at the path
  -- of the artist then lists its key in `music_set`, and `music_count` is the length of that list.
  -- The key of the artist stands in both paths in some decimal notation.
  pub dispatch-listed :
      (body any : Body) (pk : ℕ) (d d' : Text) (a : Artist) (title : Text) (store : Store dj)
      → IsNumeral pk d
      → IsNumeral pk d'
      → artists.find pk store.artist_rows ≡ some a
      → music_valid body ≡ some title
      → (id : ℕ) × (store' : Store dj) × (set : List ℕ) × (dispatch dj drf django admin admin_view
            (address d (artist_music_url pk))
            (record { method = post; body = body })
            store
          ≡ (created_201 (music_data id pk title), store'))
        × (dispatch dj drf django admin admin_view
              (address d' (artist_url pk))
              (record { method = get; body = any })
              store'
            ≡ (ok_200 (artist_data pk a.name set (length set)), store'))
        × Memᴰ id set
  unfolding serve
  dispatch-listed body any pk d d' a title store numeral numeral' found valid =
      let (id, store', set, posted, shown, member) =
        artist_rud-music_create dj drf body any pk a title store found valid in
      (
        id,
        store',
        set,
        dispatch-serve (artist_music_url pk) _ _ store (d, numeral, refl) ∙ posted,
        dispatch-serve (artist_url pk) _ _ store' (d', numeral', refl) ∙ shown,
        member,
      )
