-- ===== src/Examples/Visits.antt =====
-- Visits to a blog with an article of one user and a comment, by another user and by nobody.
use til.Prelude.{ℕ, ◌≡◌, ◌≢◌, refl, Option, none, some, [], ◌∷◌}
use til.Django.{Text, get, post, is_in, same_method, redirect}
use til.Blog.Models.{User, Article, Comment, Site, Request, request_user, index, given}
use til.Blog.Articles.{is_authenticated, update_found, update_body, update, delete}
use til.Blog.Accounts.{after_login}
use til.Blog.Urls.{articles_update, serve}
use til.Blog.Urls.Owned.{serve-owned}
use til.Blog.Urls.Removal.{delete-any_user}
use til.Examples.Slots.{find}
use til.Examples.Visitor.{Form, present, visitor, address, gate}
use til.Django.Urls.{codes}
use til.Examples.Weblog.{dj, deco}

abbrev pass : Text
pass = codes "pass-word"

abbrev user : ℕ → User
user n = record { username = n ∷ []; password = pass; email = []; first_name = []; last_name = [] }

abbrev article : Article
article = record { title = 7 ∷ []; content = 8 ∷ []; user = 0 }

abbrev comment : Comment
comment = record { content = 9 ∷ []; article = 0 }

abbrev site : Option ℕ → Site dj
site session = record {
  user_rows = some (user 5) ∷ some (user 6) ∷ [];
  article_rows = some article ∷ [];
  comment_rows = some comment ∷ [];
  session = session;
}

abbrev form : Form
form = (1 ∷ [], pass)

abbrev posting : Request dj
posting = record { method = post; post_data = form; next = none }

abbrev getting : Request dj
getting = record { method = get; post_data = form; next = none }

article_there : find 0 (site (some 1)).article_rows ≡ some article
unfolding find
article_there = refl

comment_there : find 0 (site (some 1)).comment_rows ≡ some comment
unfolding find
comment_there = refl

bob_known : request_user dj (site (some 1)) ≡ some 1
unfolding request_user visitor present find
bob_known = refl

ann_known : request_user dj (site (some 0)) ≡ some 0
unfolding request_user visitor present find
ann_known = refl

bob_strange : request_user dj (site (some 1)) ≢ some article.user
unfolding request_user visitor present find
bob_strange e = absurd (cc)

article_kept :
    find 0 (serve dj deco (articles_update 0) posting (site (some 1))).1.article_rows ≡ some article
unfolding serve update update_body update_found request_user is_authenticated visitor present find
    gate is_in same_method
article_kept = refl

serve-owned_example : article ≡ article
serve-owned_example =
    serve-owned dj deco (articles_update 0) posting (site (some 1)) 0 article article article_there
      bob_strange article_kept

-- An address outside.
abbrev slashes : Text
slashes = b'/' ∷ b'/' ∷ b'x' ∷ []

test_after_login : after_login dj deco (some slashes) ≡ some (given slashes)
unfolding after_login address
test_after_login = refl

ann_there : find 0 (site (some 0)).user_rows ≡ some (user 5)
unfolding find
ann_there = refl

delete-any_user_example :
    (site' : Site dj) × (delete dj deco posting 0 (site (some 1)) ≡ (redirect index, site'))
    × (find 0 site'.article_rows ≡ none)
    × (find 0 site'.comment_rows ≡ none)
delete-any_user_example =
    delete-any_user dj deco posting refl 0 1 0 article comment (site (some 1)) bob_known
      article_there comment_there refl
