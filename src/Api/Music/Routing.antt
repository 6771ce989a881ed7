-- ===== src/Api/Music/Routing.antt =====
-- music/urls.py of 2022/DB/1018, with the project's urls.py: the paths of the views.
use til.Prelude.{◌≡◌, ◌↔◌, inl, inr, refl, Option, none, some, [], ◌∷◌, ◌++◌}
use til.Django.{Text}
use til.Django.Urls.{
  codes, IsNumeral, lit, int_part, Patterns, done, path, include, admin_site, Resolver, Served,
  admin_page, Finds,
}
use til.Django.Urls.Exact.{resolve-Finds, Finds-resolve, admin_page-ne-view, same_view}
use til.Api.{not_found_404, Framework}
use til.Api.Music.{
  Backend, Store, Request, Content, Answer, serve, Route, artists_url, artist_url, music_url,
  musics_url, artist_music_url,
}
pub mod Listed

-- music/urls.py of 2022/DB/1018
abbrev pub music_urlpatterns : {Admin : Type 0} → Patterns (Served Admin Route)
music_urlpatterns = path (lit (codes "artists/") ∷ []) (inr artists_url) (
    path (lit (codes "artists/") ∷ int_part ∷ lit (codes "/") ∷ []) (λ pk. inr (artist_url pk))
      (path (lit (codes "music/") ∷ int_part ∷ lit (codes "/") ∷ []) (λ pk. inr (music_url pk))
        (path (lit (codes "music/") ∷ []) (inr musics_url) (
          path (lit (codes "artists/") ∷ int_part ∷ lit (codes "/music/") ∷ [])
            (λ pk. inr (artist_music_url pk)) done))))

-- my_api/urls.py of 2022/DB/1018
abbrev pub urlpatterns : {Admin : Type 0} → (Text → Option Admin) → Patterns (Served Admin Route)
urlpatterns admin =
    admin_site (codes "admin/") (λ text. admin_page (admin text))
      (include (codes "api/v1/") music_urlpatterns done)

-- The path of a view, `d` a text for its number.
abbrev pub address : Text → Route → Text
address d artists_url = codes "api/v1/artists/"
address d (artist_url pk) = codes "api/v1/artists/" ++ d ++ codes "/"
address d (music_url pk) = codes "api/v1/music/" ++ d ++ codes "/"
address d musics_url = codes "api/v1/music/"
address d (artist_music_url pk) = codes "api/v1/artists/" ++ d ++ codes "/music/"

abbrev pub IsKey : Route → Text → Type 0
IsKey artists_url d = Unit {0}
IsKey (artist_url pk) d = IsNumeral pk d
IsKey (music_url pk) d = IsNumeral pk d
IsKey musics_url d = Unit {0}
IsKey (artist_music_url pk) d = IsNumeral pk d

abbrev pub IsAddress : Route → Text → Type 0
IsAddress route text = (d : Text) × IsKey route d × (text ≡ address d route)

module _ (dj : Backend) (drf : Framework (Store dj) Content) {Admin : Type 0}
    (django : Resolver (Served Admin Route)) (admin : Text → Option Admin)
    (admin_view : Admin → Request dj → Store dj → Answer dj drf) where
  -- A path that resolves to nothing is answered by a 404.
  unfoldable pub answer : Option (Served Admin Route) → Request dj → Store dj → Answer dj drf
  answer none r store = (not_found_404, store)
  answer (some (inl a)) r store = admin_view a r store
  answer (some (inr route)) r store = serve dj drf route r store

  -- The answer to a request for a path, given what the middleware lets through.
  unfoldable pub dispatch : Text → Request dj → Store dj → Answer dj drf
  unfolding answer
  dispatch text = answer (django.resolve (urlpatterns admin) text)

module _ {Admin : Type 0} where
  music-IsAddress :
      (route : Route) (text : Text)
      → Finds (music_urlpatterns {Admin = Admin}) text (inr route)
      → IsAddress route (codes "api/v1/" ++ text)
  music-IsAddress route text (inl (tail, e, (nil, same))) =
      same_view (λ x. IsAddress x (codes "api/v1/" ++ text)) artists_url route same
        ([], tt, rw (e, nil) refl)
  music-IsAddress route text
        (inr (inl (tail, e, (pk, d, tail', value, e', (end, e'', (nil, same)))))) =
      same_view (λ x. IsAddress x (codes "api/v1/" ++ text)) (artist_url pk) route same
        (d, value, rw (e, e', e'', nil) refl)
  music-IsAddress route text
        (inr (inr (inl (tail, e, (pk, d, tail', value, e', (end, e'', (nil, same))))))) =
      same_view (λ x. IsAddress x (codes "api/v1/" ++ text)) (music_url pk) route same
        (d, value, rw (e, e', e'', nil) refl)
  music-IsAddress route text (inr (inr (inr (inl (tail, e, (nil, same)))))) =
      same_view (λ x. IsAddress x (codes "api/v1/" ++ text)) musics_url route same
        ([], tt, rw (e, nil) refl)
  music-IsAddress route text
        (inr
          (inr (inr (inr (inl (tail, e, (pk, d, tail', value, e', (end, e'', (nil, same))))))))) =
      same_view (λ x. IsAddress x (codes "api/v1/" ++ text)) (artist_music_url pk) route same
        (d, value, rw (e, e', e'', nil) refl)
  music-IsAddress route text (inr (inr (inr (inr (inr end))))) = absurd end

  urlpatterns-IsAddress :
      (admin : Text → Option Admin) (route : Route) (text : Text)
      → Finds (urlpatterns admin) text (inr route)
      → IsAddress route text
  urlpatterns-IsAddress admin route text (inl (tail, e, found)) =
      absurd (admin_page-ne-view (admin tail) route found)
  urlpatterns-IsAddress admin route text (inr (inl (tail, e, here))) =
      rw e (music-IsAddress route tail here)
  urlpatterns-IsAddress admin route text (inr (inr end)) = absurd end

  IsAddress-urlpatterns :
      (admin : Text → Option Admin) (route : Route) (text : Text)
      → IsAddress route text
      → Finds (urlpatterns admin) text (inr route)
  IsAddress-urlpatterns admin artists_url text (d, u, e) =
      inr (inl (_, e, inl ([], refl, (refl, refl))))
  IsAddress-urlpatterns admin (artist_url pk) text (d, value, e) =
      inr (inl (_, e, inr (inl (_, refl, (pk, d, _, value, refl, ([], refl, (refl, refl)))))))
  IsAddress-urlpatterns admin (music_url pk) text (d, value, e) =
      inr (inl (_, e, inr (inr (inl (_, refl, (pk, d, _, value, refl, ([], refl, (refl, refl))))))))
  IsAddress-urlpatterns admin musics_url text (d, u, e) =
      inr (inl (_, e, inr (inr (inr (inl ([], refl, (refl, refl)))))))
  IsAddress-urlpatterns admin (artist_music_url pk) text (d, value, e) = inr (
      inl (
        _,
        e,
        inr (inr (inr (inr (inl (_, refl, (pk, d, _, value, refl, ([], refl, (refl, refl)))))))),
      ))

-- A path resolves to a view of the music interface exactly if it is that view's path with a decimal
-- notation of its number.
pub resolve_music-IsAddress :
    {Admin : Type 0} (django : Resolver (Served Admin Route)) (admin : Text → Option Admin)
    (route : Route) (text : Text)
    → (django.resolve (urlpatterns admin) text ≡ some (inr route)) ↔ IsAddress route text
resolve_music-IsAddress django admin route text = (
  λ e. urlpatterns-IsAddress admin route text (resolve-Finds django (urlpatterns admin) text _ e),
  λ h.
      Finds-resolve django (urlpatterns admin) text _ refl
        (IsAddress-urlpatterns admin route text h),
)
