-- ===== src/Settings.antt =====
-- The settings.py files of the Django projects of 2022/DB: what they install, and the middleware
-- around the views. Django loads the middleware; it is a parameter with its documented behaviour.
use til.Prelude.{
  none, if◌then◌else◌, Option, some, ◌≡◌, ◌≤◌, Bool, true, false, ◌||◌, not, List, [], ◌∷◌, length,
}
use til.Django.Urls.{is_digits}
use til.Django.{Text, Method, get, head, post, put, delete, options, trace, other}
pub mod Blog
pub mod Todo
pub mod Articles
pub mod Music
pub mod Entry
pub mod Guarded
pub mod Installed

-- The entries of INSTALLED_APPS, by their last names.
pub data App : Type 0 where
  articles accounts todos music django_extensions rest_framework : App
  admin auth contenttypes sessions messages staticfiles : App

-- The entries of MIDDLEWARE: the classes of these names.
pub data Middleware : Type 0 where
  security_middleware session_middleware common_middleware csrf_view_middleware : Middleware
  authentication_middleware message_middleware x_frame_options_middleware : Middleware

-- The entries of AUTH_PASSWORD_VALIDATORS: the classes of these names.
pub data Validator : Type 0 where
  user_attribute_similarity_validator minimum_length_validator : Validator
  common_password_validator numeric_password_validator : Validator

-- What the documentation states of a password that a validator lets pass; nothing of those that read
-- the user's other fields or a list of common passwords.
abbrev pub Passes : Validator → Text → Type 0
Passes minimum_length_validator password = 8 ≤ length password
Passes numeric_password_validator password = is_digits password ≡ false
Passes _ password = Unit {0}

-- What the middleware reads of a request and what it has added to it. `slash_missing`: no URL fits
-- the path, but one fits it with a slash at its end. `url_found`: a URL fits the path. `csrf_exempt`:
-- the view is marked so, as the views of the REST framework are.
pub record Incoming : Type 0 where
  pub method : Method
  pub token_valid : Bool
  pub url_found : Bool
  pub csrf_exempt : Bool
  pub slash_missing : Bool
  pub session_loaded : Bool
  pub user_known : Bool
  pub messages_ready : Bool

-- `slash_appended`: the redirect to the path with a slash, or the exception that takes its place for
-- a POST while DEBUG is on.
pub data Outcome (A : Type 0) : Type 0 where
  answered : A → Outcome A
  forbidden : Outcome A
  improperly_configured : Outcome A
  slash_appended : Outcome A

abbrev pub Handler : Type 0 → Type 0 → Type 0
Handler Site A = Incoming → Site → Outcome A × Site

-- The methods that ask for no CSRF token.
abbrev pub is_safe : Method → Bool
is_safe get = true
is_safe head = true
is_safe post = false
is_safe put = false
is_safe delete = false
is_safe options = true
is_safe trace = true
is_safe other = false

-- The token is checked when the view has been found, and before it is called: a path that no URL
-- fits comes to a 404 unchecked.
abbrev pub admits : Incoming → Bool
admits c = not c.url_found || (is_safe c.method || (c.token_valid || c.csrf_exempt))

-- `load` wraps a view in MIDDLEWARE, the first entry outermost. The security and the clickjacking
-- middleware add headers, under the default settings, which an answer leaves out here. The
-- authentication and the message middleware raise ImproperlyConfigured if no session is there.
pub record Layers (Site A : Type 0) : Type 0 where
  pub layer : Middleware → Handler Site A → Handler Site A
  pub load : List Middleware → Handler Site A → Handler Site A
  pub load_nil : (h : Handler Site A) → load [] h ≡ h
  pub load_cons :
      (m : Middleware) (ms : List Middleware) (h : Handler Site A)
      → load (m ∷ ms) h ≡ layer m (load ms h)
  pub security :
      (h : Handler Site A) (c : Incoming) (site : Site)
      → layer security_middleware h c site ≡ h c site
  pub x_frame_options :
      (h : Handler Site A) (c : Incoming) (site : Site)
      → layer x_frame_options_middleware h c site ≡ h c site
  pub session :
      (h : Handler Site A) (c : Incoming) (site : Site)
      → layer session_middleware h c site ≡ h (record c { session_loaded = true }) site
  pub common :
      (h : Handler Site A) (c : Incoming) (site : Site)
      → c.slash_missing ≡ false
      → layer common_middleware h c site ≡ h c site
  pub common_slash :
      (h : Handler Site A) (c : Incoming) (site : Site)
      → c.slash_missing ≡ true
      → layer common_middleware h c site ≡ (slash_appended, site)
  pub csrf_view :
      (h : Handler Site A) (c : Incoming) (site : Site)
      → admits c ≡ true
      → layer csrf_view_middleware h c site ≡ h c site
  pub csrf_view_fails :
      (h : Handler Site A) (c : Incoming) (site : Site)
      → admits c ≡ false
      → layer csrf_view_middleware h c site ≡ (forbidden, site)
  pub authentication :
      (h : Handler Site A) (c : Incoming) (site : Site)
      → c.session_loaded ≡ true
      → layer authentication_middleware h c site ≡ h (record c { user_known = true }) site
  pub authentication_fails :
      (h : Handler Site A) (c : Incoming) (site : Site)
      → c.session_loaded ≡ false
      → layer authentication_middleware h c site ≡ (improperly_configured, site)
  pub message :
      (h : Handler Site A) (c : Incoming) (site : Site)
      → c.session_loaded ≡ true
      → layer message_middleware h c site ≡ h (record c { messages_ready = true }) site
  pub message_fails :
      (h : Handler Site A) (c : Incoming) (site : Site)
      → c.session_loaded ≡ false
      → layer message_middleware h c site ≡ (improperly_configured, site)

-- APPEND_SLASH, which the settings leave at its default: which paths lack a slash at their end. None
-- does that fits a URL as it is.
pub record AppendSlash (A : Type 0) (resolve : Text → Option A) : Type 0 where
  pub lacks_slash : Text → Bool
  pub complete : (text : Text) (x : A) → resolve text ≡ some x → lacks_slash text ≡ false

abbrev pub is_found : {A : Type 0} → Option A → Bool
is_found none = false
is_found (some x) = true

-- A request for a path as it comes in, to views that are not exempt from the CSRF token.
abbrev pub arriving :
    {A : Type 0} (resolve : Text → Option A)
    → AppendSlash A resolve
    → Text
    → Bool
    → Method
    → Incoming
arriving resolve slashes text token m = record {
  method = m;
  token_valid = token;
  url_found = is_found (resolve text);
  csrf_exempt = false;
  slash_missing = slashes.lacks_slash text;
  session_loaded = false;
  user_known = false;
  messages_ready = false;
}

-- `os.environ`: the variable DJANGO_SETTINGS_MODULE, and the others with their values.
pub record Environ : Type 0 where
  pub settings_module : Option Text
  pub others : List (Text × Text)

-- `os.environ.setdefault('DJANGO_SETTINGS_MODULE', …)`: a value that is there stays.
unfoldable pub set_default : Text → Environ → Environ
set_default default env = elim env.settings_module [
  | none ↦ record env { settings_module = some default }
  | some there ↦ env
]

-- What `main` of a manage.py comes to: the command line is executed in an environment, or Django
-- cannot be imported. What a command does is Django's.
pub data Started : Type 0 where
  executed : Environ → List Text → Started
  import_error : Started

unfoldable pub main_with : Text → Environ → Bool → List Text → Started
unfolding set_default
main_with default env imports argv =
    if imports then executed (set_default default env) argv else import_error
