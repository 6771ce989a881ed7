-- ===== src/Examples/Requests.antt =====
-- Requests through the middleware of the projects: layers that meet the laws.
use til.Prelude.{ℕ, suc, ◌≡◌, refl, true, false, List, [], ◌∷◌, if◌then◌else◌}
use til.Django.{post}
use til.Settings.{
  Middleware, security_middleware, session_middleware, common_middleware, csrf_view_middleware,
  authentication_middleware, message_middleware, x_frame_options_middleware, Incoming, answered,
  forbidden, improperly_configured, slash_appended, Handler, admits, Layers,
}
use til.Settings.Guarded.{blog, middleware, guarded, load-guarded}

module _ {S A : Type 0} where
  layer : Middleware → Handler S A → Handler S A
  layer security_middleware h c site = h c site
  layer x_frame_options_middleware h c site = h c site
  layer session_middleware h c site = h (record c { session_loaded = true }) site
  layer common_middleware h c site = if c.slash_missing then (slash_appended, site) else h c site
  layer csrf_view_middleware h c site = if admits c then h c site else (forbidden, site)
  layer authentication_middleware h c site =
      if c.session_loaded
      then h (record c { user_known = true }) site
      else (improperly_configured, site)
  layer message_middleware h c site =
      if c.session_loaded
      then h (record c { messages_ready = true }) site
      else (improperly_configured, site)

  load : List Middleware → Handler S A → Handler S A
  load [] h = h
  load (m ∷ ms) h = layer m (load ms h)

pub layers : {S A : Type 0} → Layers S A
unfolding layer load
layers = record {
  layer = layer;
  load = load;
  load_nil = λ h. refl;
  load_cons = λ m ms h. refl;
  security = λ h c site. refl;
  x_frame_options = λ h c site. refl;
  session = λ h c site. refl;
  common = λ h c site e. rw e refl;
  common_slash = λ h c site e. rw e refl;
  csrf_view = λ h c site e. rw e refl;
  csrf_view_fails = λ h c site e. rw e refl;
  authentication = λ h c site e. rw e refl;
  authentication_fails = λ h c site e. rw e refl;
  message = λ h c site e. rw e refl;
  message_fails = λ h c site e. rw e refl;
}

-- A view that counts its requests.
abbrev counting : Handler ℕ ℕ
counting c n = (answered n, suc n)

abbrev forged : Incoming
forged = record {
  method = post;
  token_valid = false;
  url_found = true;
  csrf_exempt = false;
  slash_missing = false;
  session_loaded = false;
  user_known = false;
  messages_ready = false;
}

forged_stopped : guarded counting forged 3 ≡ (forbidden, 3)
forged_stopped = refl

load-guarded_example : layers.load (middleware blog) counting forged 3 ≡ guarded counting forged 3
load-guarded_example = load-guarded layers counting blog forged 3
