-- ===== src/Examples/Clients.antt =====
-- Clients of the JSON interfaces of 2022/DB/1017 and 2022/DB/1018, that name paths.
use til.Prelude.{ℕ, ◌≡◌, List, length, Option, none, some, [], refl}
use til.Django.{Text, get, post}
use til.Django.Urls.{codes}
use til.Api.{ok_200, created_201, not_found_404}
use til.Api.Articles.{Store, Request, Answer, articles_url}
use til.Api.Articles.Exchange.{asks}
use til.Api.Articles.Routing.{dispatch}
use til.Api.Articles.Promise.{db_of, Allowed}
use til.Api.Articles.Promise.Served.{dispatch-Allowed}
use mathlib.Core.List.{Memᴰ}
use til.Api.Music as Music
use til.Api.Music.Routing as Routing
use til.Api.Music.Routing.Listed.{dispatch-listed}
use til.Examples.Interfaces.{
  dj, frame, body, nothing, mu, stage, artist, catalogue, artist_there, fitting_text,
}
use til.Examples.Paths.{resolver}

abbrev admin : Text → Option (Unit {0})
admin text = none

abbrev admin_view : Unit {0} → Request dj → Store dj → Answer dj frame
admin_view u r store = (not_found_404, store)

dispatch-Allowed_example :
    let (reply, store') =
      dispatch dj frame resolver admin admin_view
        (codes "api/v1/articles/")
        (asks dj frame post body)
        nothing in
    Allowed dj articles_url post body (db_of dj nothing) reply (db_of dj store')
dispatch-Allowed_example =
    dispatch-Allowed dj frame resolver admin admin_view articles_url (codes "api/v1/articles/") post
      body nothing ([], tt, refl)

abbrev music_view : Unit {0} → Music.Request mu → Music.Store mu → Music.Answer mu stage
music_view u r store = (not_found_404, store)

song_fits : fitting_text (some (codes "la")) ≡ some (codes "la")
unfolding fitting_text
song_fits = refl

dispatch-listed_example :
    (id : ℕ) × (store' : Music.Store mu) × (set : List ℕ) × (Routing.dispatch mu stage resolver
        admin music_view
        (codes "api/v1/artists/0/music/")
        (record { method = post; body = some (codes "la") })
        catalogue
      ≡ (created_201 (Music.music_data id 0 (codes "la")), store'))
    × (Routing.dispatch mu stage resolver admin music_view
          (codes "api/v1/artists/00/")
          (record { method = get; body = none })
          store'
        ≡ (ok_200 (Music.artist_data 0 artist.name set (length set)), store'))
    × Memᴰ id set
dispatch-listed_example =
    dispatch-listed mu stage resolver admin music_view (some (codes "la")) none 0 (codes "0")
      (codes "00") artist (codes "la") catalogue (refl, refl) (refl, refl) artist_there song_fits
