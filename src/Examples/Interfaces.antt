-- ===== src/Examples/Interfaces.antt =====
-- Requests to the JSON interfaces: 2022/DB/1017 and 2022/DB/1018.
use mathlib.Core.Option.{some-injective, none-ne-some}
use til.Prelude.{
  ℕ, zero, suc, ◌≡◌, ◌≤◌, leb, arith, refl, true, false, Option, none, some, List, [], ◌∷◌, length,
  if◌then◌else◌,
}
use til.Django.{Method, post, is_in}
use til.Api.{other_status, ApiView, Framework}
use til.Api.Articles as Articles
use til.Api.Articles.Stored as Stored
use til.Api.Articles.Stored.{serve-IsConsistent}
use til.Api.Articles.Exchange.{asks}
use til.Api.Music as Music
use til.Api.Music.Catalogue as Catalogue
use til.Api.Music.Catalogue.{serve-IsCatalogue}
use til.Examples.Slots.{find, slots}

abbrev Text : Type 0
Text = List ℕ

module _ {S C : Type 0} where
  pub gate : List Method → Method → ApiView S C → ApiView S C
  gate ms m view store = if is_in m ms then view store else (other_status 405, store)

  pub gate-in :
      (ms : List Method) (m : Method) (view : ApiView S C) (store : S)
      → is_in m ms ≡ true
      → gate ms m view store ≡ view store
  unfolding gate
  gate-in ms m view store e = rw e refl

  pub gate-out :
      (ms : List Method) (m : Method) (view : ApiView S C) (store : S)
      → is_in m ms ≡ false
      → (gate ms m view store).1 ≡ store
  unfolding gate
  gate-out ms m view store e = rw e refl

abbrev pub drf : (S C : Type 0) → Framework S C
drf S C = record { api_view = gate; method_in = gate-in; method_out = gate-out }

pub fitting : Option (Text × Text) → Option (Text × Text)
fitting none = none
fitting (some (t, c)) = if leb (length t) 200 then some (t, c) else none

pub fitting_lem :
    (body : Option (Text × Text)) (title content : Text)
    → fitting body ≡ some (title, content)
    → length title ≤ 200
unfolding fitting
fitting_lem none title content e = ground arith
fitting_lem (some (t, c)) title content e = ground arith

unfoldable pub fitting_text : Option Text → Option Text
fitting_text none = none
fitting_text (some t) = if leb (length t) 200 then some t else none

pub fitting_text_lem : (body : Option Text) (t : Text) → fitting_text body ≡ some t → length t ≤ 200
unfolding fitting_text
fitting_text_lem none t e = ground arith
fitting_text_lem (some s) t e = ground arith

abbrev pub dj : Articles.Backend
dj = record {
  Body = Option (Text × Text);
  articles = slots Articles.Article;
  comments = slots Articles.Comment;
  article_valid = fitting;
  article_valid_fits = fitting_lem;
  comment_valid = λ body. elim body [ none ↦ none | some x ↦ some x.1 ];
}

abbrev pub frame : Framework (Articles.Store dj) Articles.Content
frame = drf (Articles.Store dj) Articles.Content

abbrev article : Articles.Article
article = record { title = 7 ∷ []; content = 8 ∷ [] }

abbrev comment : Articles.Comment
comment = record { article = 0; content = 9 ∷ [] }

abbrev store : Articles.Store dj
store = record { article_rows = some article ∷ []; comment_rows = some comment ∷ [] }

abbrev pub nothing : Articles.Store dj
nothing = record { article_rows = []; comment_rows = [] }

abbrev pub body : Option (Text × Text)
body = some (1 ∷ [], 2 ∷ [])

nothing-IsConsistent : Stored.IsConsistent dj nothing
unfolding find
nothing-IsConsistent = record {
  subject = λ k c e. absurd (none-ne-some _ e);
  title_fits = λ k a e. absurd (none-ne-some _ e);
}

serve-IsConsistent_example :
    Stored.IsConsistent dj
      (Articles.serve dj frame
        (Articles.article_comments_url 0)
        (asks dj frame post body)
        nothing).1
serve-IsConsistent_example =
    serve-IsConsistent dj frame (Articles.article_comments_url 0) (asks dj frame post body) nothing
      nothing-IsConsistent

article_there : find 0 store.article_rows ≡ some article
unfolding find
article_there = refl

comment_there : find 0 store.comment_rows ≡ some comment
unfolding find
comment_there = refl

abbrev pub mu : Music.Backend
mu = record {
  Body = Option Text;
  artists = slots Music.Artist;
  musics = slots Music.Music;
  artist_valid = fitting_text;
  artist_valid_fits = fitting_text_lem;
  music_valid = fitting_text;
  music_valid_fits = fitting_text_lem;
}

abbrev pub stage : Framework (Music.Store mu) Music.Content
stage = drf (Music.Store mu) Music.Content

abbrev pub artist : Music.Artist
artist = record { name = 5 ∷ [] }

abbrev pub catalogue : Music.Store mu
catalogue = record { artist_rows = some artist ∷ []; music_rows = [] }

one_slot : {Row : Type 0} (k : ℕ) (x y : Row) → find k (some x ∷ []) ≡ some y → x ≡ y
unfolding find
one_slot zero x y e = some-injective _ _ e
one_slot (suc k) x y e = absurd (none-ne-some _ e)

catalogue-IsCatalogue : Catalogue.IsCatalogue mu catalogue
unfolding find
catalogue-IsCatalogue = record {
  performer = λ k m e. absurd (none-ne-some _ e);
  name_fits = λ k a e. rw (← one_slot k artist a e) (omega arith);
  title_fits = λ k m e. absurd (none-ne-some _ e);
}

abbrev song : Music.Request mu
song = record { method = post; body = some (6 ∷ []) }

serve-IsCatalogue_example :
    Catalogue.IsCatalogue mu (Music.serve mu stage (Music.artist_music_url 0) song catalogue).1
serve-IsCatalogue_example =
    serve-IsCatalogue mu stage (Music.artist_music_url 0) song catalogue catalogue-IsCatalogue

pub artist_there : find 0 catalogue.artist_rows ≡ some artist
unfolding find
artist_there = refl
