-- ===== src/Examples/Weblog.antt =====
-- Django with tables of slots, under the blog of 2022/DB/1006/02_db_workshop_skeleton.
use mathlib.Core.List.{Memᴰ}
use mathlib.Core.Option.{some-injective, none-ne-some}
use til.Prelude.{
  ℕ, ◌≡◌, ◌≤◌, refl, ap, Bool, true, not, ◌&&◌, Option, none, some, [], length, leb, if◌then◌else◌,
  arith, Bool-cases, inl, inr,
}
use til.Django.Urls.{is_digits}
use til.Settings.{
  Validator, user_attribute_similarity_validator, minimum_length_validator,
  common_password_validator, numeric_password_validator, Passes,
}
use til.Settings.Blog.{auth_password_validators}
use til.Django.{Text}
use til.Blog.Models.{User, Article, Comment, title_max, comment_max, Backend, Deco}
use til.Examples.Visitor.{
  Form, visitor, visitor-none, visitor-exists, visitor-some, known, known-finds, address,
  address-path, gate, gate-in, gate-out, door,
}
use til.Examples.Slots.{slots}

unfoldable pub fitting_article : Form → Option (Text × Text)
fitting_article (t, c) = if leb (length t) title_max then some (t, c) else none

pub fitting_comment : Form → Option Text
fitting_comment (t, c) = if leb (length c) comment_max then some c else none

pub fitting_article-fits :
    (f : Form) (title content : Text)
    → fitting_article f ≡ some (title, content)
    → length title ≤ title_max
unfolding fitting_article
fitting_article-fits (t, c) title content e = ground arith

pub fitting_comment-fits :
    (f : Form) (content : Text) → fitting_comment f ≡ some content → length content ≤ comment_max
unfolding fitting_comment
fitting_comment-fits (t, c) content e = ground arith

-- At least 8 characters and not all digits; no text is a common password here.
unfoldable pub is_strong : Text → Bool
is_strong t = leb 8 (length t) && not (is_digits t)

is_strong-Passes : (t : Text) → is_strong t ≡ true → (v : Validator) → Passes v t
unfolding is_strong
is_strong-Passes t e user_attribute_similarity_validator = tt
is_strong-Passes t e minimum_length_validator = ground arith
is_strong-Passes t e common_password_validator = tt
is_strong-Passes t e numeric_password_validator = ground arith

unfoldable pub strong_account : Form → Option (Text × Text)
unfolding is_strong
strong_account (t, c) = if is_strong c then some (t, c) else none

pub strong_account-Passes :
    (f : Form) (username password : Text)
    → strong_account f ≡ some (username, password)
    → (v : Validator) → Memᴰ v auth_password_validators
    → Passes v password
unfolding strong_account
strong_account-Passes (t, c) username password e v m = elim (Bool-cases (is_strong c)) [
  | inl strong ↦
      let same = some-injective _ _ (rw strong at e) in
      let password_same : c ≡ password = ap (λ x. x.1) same in
      rw (← password_same) (is_strong-Passes c strong v)
  | inr weak ↦ absurd (none-ne-some _ (rw weak at e))
]

unfoldable pub strong_password : Form → Option Text
unfolding is_strong
strong_password (t, c) = if is_strong c then some c else none

pub strong_password-Passes :
    (f : Form) (password : Text)
    → strong_password f ≡ some password
    → (v : Validator) → Memᴰ v auth_password_validators
    → Passes v password
unfolding strong_password
strong_password-Passes (t, c) password e v m = elim (Bool-cases (is_strong c)) [
  | inl strong ↦
      let same = some-injective _ _ (rw strong at e) in rw (← same) (is_strong-Passes c strong v)
  | inr weak ↦ absurd (none-ne-some _ (rw weak at e))
]

abbrev pub dj : Backend
dj = record {
  Post = Form;
  Session = Option ℕ;
  resolve_url = address;
  resolve_url_path = address-path;
  users = slots User;
  articles = slots Article;
  comments = slots Comment;
  article_form = fitting_article;
  comment_form = fitting_comment;
  article_form_instance = λ data_in article. article;
  article_form_fits = fitting_article-fits;
  comment_form_fits = fitting_comment-fits;
  authentication_form = known;
  authentication_form_finds = known-finds;
  creation_form = λ f rows. strong_account f;
  creation_form_validated = λ f rows. strong_account-Passes f;
  change_form = λ f. some (f.0, f.1, []);
  password_form = λ user f. strong_password f;
  password_form_validated = λ user. strong_password-Passes;
  login = λ u user session. some u;
  logout = λ session. none;
  update_session_auth_hash = λ u user session. some u;
  login_unsaved = λ u user session. session;
  user_of = visitor;
  user_of_exists = visitor-exists;
  user_of-login = λ session look u user e. visitor-some look u user e;
  user_of-login_unsaved = λ session look u user e. e;
  user_of-logout = λ session look. visitor-none look;
  user_of-update_session_auth_hash =
      λ session before after u user e e'. visitor-some after u user e';
}

abbrev pub deco : Deco dj
deco = record {
  require_http_methods = gate;
  login_required = door;
  method_in = gate-in;
  method_out = gate-out;
  logged_in = λ view site. refl;
  logged_out = λ view site. refl;
}
