-- ===== src/Examples/TodoSite.antt =====
-- 2022/DB/1006/03_db over tables of slots, with one user.
use til.Prelude.{
  ℕ, ◌≡◌, refl, ap, ◌∙◌, ◌⊎◌, inr, true, false, Option, none, some, [], ◌∷◌, ◌++◌, arith,
}
use til.Django.{
  Text, has_slash, post, is_in, same_method, redirect, not_found, server_error, Decorators,
}
use til.Todo.{
  User, Todo, Backend, Site, Request, Answer, Page, signup_url, login_url, is_name, serve,
  request_user, login_view, login_body, log_in_as, log_in_found, log_in_to, after_login,
  redirect_to, is_authenticated,
}
use til.Todo.Errors.{IsLogin, signup-server_error}
use til.Todo.Routing.{
  urlpatterns, answer, dispatch, Slashes, handle, respond, resolve-address, IsAdminAnswer,
  respond-redirect,
}
use til.Settings.{answered, arriving}
use til.Settings.Guarded.{todo, load-guarded}
use til.Examples.Requests.{layers}
use til.Django.Urls.{codes}
use til.Examples.Paths.{resolver}
use til.Examples.Slots.{find, slots}
use til.Examples.Visitor.{
  Form, present, visitor, visitor-none, visitor-some, known, known-finds, address, address-path,
  gate, gate-in, gate-out, door,
}

name-no_slash : (t : Text) → is_name t ≡ true → has_slash t ≡ false
name-no_slash [] e = refl
name-no_slash (c ∷ t) e = ground (arith, name-no_slash t)

names-no_slash :
    (s t : Text) → is_name s ≡ true → is_name t ≡ true → has_slash (s ++ b':' ∷ t) ≡ false
names-no_slash [] t e f = name-no_slash t f
names-no_slash (c ∷ s) t e f = ground (arith, names-no_slash s t)

names-no_address :
    (s t : Text) → is_name s ≡ true → is_name t ≡ true → address (s ++ b':' ∷ t) ≡ none
unfolding address
names-no_address s t e f = rw (names-no_slash s t e f) refl

abbrev dj : Backend
dj = record {
  Post = Form;
  Session = Option ℕ;
  users = slots User;
  todo_table = slots Todo;
  resolve_url = address;
  resolve_url_path = address-path;
  resolve_url_unknown = λ namespace name e f u. names-no_address namespace name e f;
  authentication_form = known;
  authentication_form_finds = known-finds;
  creation_form = λ f rows. some f;
  login = λ u user session. some u;
  login_unsaved = λ u user session. none;
  logout = λ session. none;
  user_of = visitor;
  user_of-login = λ session look u user e. visitor-some look u user e;
  user_of-login_unsaved = λ session before after u user e. visitor-none after;
  user_of-logout = λ session look. visitor-none look;
}

abbrev deco : Decorators (Site dj) Page Text
deco = record {
  require_http_methods = gate;
  login_required = door;
  method_in = gate-in;
  method_out = gate-out;
  logged_in = λ view site. refl;
  logged_out = λ view site. refl;
}

abbrev ann : User
ann = record { username = 1 ∷ []; password = 2 ∷ [] }

abbrev site : Site dj
site = record { user_rows = some ann ∷ []; todo_rows = []; session = none }

abbrev posting : Option Text → Request dj
posting next = record { method = post; post_data = (5 ∷ [], 6 ∷ []); next = next }

signup-server_error_example :
    (after : Site dj) × (u : ℕ) × (serve dj deco signup_url (posting none) site
      ≡ (server_error, after))
    × (find u site.user_rows ≡ none)
    × (find u after.user_rows ≡ some (record { username = 5 ∷ []; password = 6 ∷ [] }))
    × (request_user dj after ≡ none)
signup-server_error_example =
    signup-server_error dj deco (posting none) site (5 ∷ []) (6 ∷ []) refl
      (unfold request_user visitor in refl) refl

-- '/todos/'
abbrev next : Text
next = b'/' ∷ b't' ∷ b'o' ∷ b'd' ∷ b'o' ∷ b's' ∷ b'/' ∷ []

abbrev logged_in : Site dj
logged_in = record site { session = some 0 }

went_on : serve dj deco login_url (posting (some next)) site ≡ (redirect next, logged_in)
unfolding serve login_view login_body log_in_as log_in_found log_in_to after_login redirect_to
    is_authenticated request_user visitor known present address gate is_in same_method find
went_on = refl

-- No page of the administration site is in these tests.
abbrev admin : Text → Option (Unit {0})
admin text = none

abbrev admin_view : Unit {0} → Request dj → Site dj → Answer dj
admin_view u r site = (not_found, site)

abbrev slashes : Slashes dj deco resolver admin admin_view
slashes = record { lacks_slash = λ text. false; complete = λ text x e. refl }

at_login : resolver.resolve (urlpatterns admin) (codes "accounts/login/") ≡ some (inr login_url)
at_login = (resolve-address resolver admin login_url (codes "accounts/login/")).1 refl

responded :
    respond dj deco resolver admin admin_view slashes layers
      (codes "accounts/login/")
      true
      (posting (some next))
      site
    ≡ (answered (redirect next), logged_in)
unfolding respond handle dispatch answer
responded =
    load-guarded layers
      (handle dj deco resolver admin admin_view (codes "accounts/login/") (posting (some next)))
      todo
      (arriving (λ t. resolver.resolve (urlpatterns admin) t) slashes (codes "accounts/login/") true
        post)
      site
    ∙ rw at_login (ap (λ (p : Answer dj). (answered p.0, p.1)) went_on)

respond-redirect_example :
    IsAdminAnswer dj deco resolver admin admin_view
      (codes "accounts/login/")
      (posting (some next))
      site
      (redirect next, logged_in)
    ⊎ ((codes "accounts/login/" ≡ codes "accounts/login/")
        × (true ≡ true)
        × IsLogin dj deco (posting (some next)) site next logged_in)
respond-redirect_example =
    respond-redirect dj deco resolver admin admin_view slashes layers (codes "accounts/login/") true
      (posting (some next)) site next logged_in responded
