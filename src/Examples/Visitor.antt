-- ===== src/Examples/Visitor.antt =====
-- Visitors of the example sites: a session holds the key of a user, or nothing.
use mathlib.Core.Option.{some-injective, none-ne-some}
use til.Prelude.{ℕ, ◌≡◌, refl, Bool, true, false, Option, none, some, List, if◌then◌else◌}
use til.Django.{Text, has_slash, Method, is_in, to_login, not_allowed, View}
use til.Examples.Slots.{Slots, find}

abbrev pub Form : Type 0
Form = Text × Text

module _ {A : Type 0} where
  -- The key of a row that is there.
  unfoldable pub present : ℕ → Option A → Option ℕ
  present u none = none
  present u (some user) = some u

  present-exists : (u v : ℕ) (o : Option A) → present u o ≡ some v → (user : A) × (o ≡ some user)
  unfolding present
  present-exists u v none e = absurd (none-ne-some _ e)
  present-exists u v (some user) e = (user, refl)

  present-same : (u v : ℕ) (o : Option A) → present u o ≡ some v → u ≡ v
  unfolding present
  present-same u v none e = absurd (none-ne-some _ e)
  present-same u v (some user) e = some-injective _ _ e

  unfoldable pub visitor : Option ℕ → (ℕ → Option A) → Option ℕ
  unfolding present
  visitor none look = none
  visitor (some u) look = present u (look u)

  pub visitor-none : (look : ℕ → Option A) → visitor none look ≡ none
  unfolding visitor
  visitor-none look = refl

  pub visitor-exists :
      (session : Option ℕ) (look : ℕ → Option A) (u : ℕ)
      → visitor session look ≡ some u
      → (user : A) × (look u ≡ some user)
  unfolding visitor
  visitor-exists none look u e = absurd (none-ne-some _ e)
  visitor-exists (some v) look u e =
      rw (← present-same v u (look v) e) (present-exists v u (look v) e)

  pub visitor-some :
      (look : ℕ → Option A) (u : ℕ) (user : A) → look u ≡ some user → visitor (some u) look ≡ some u
  unfolding visitor present
  visitor-some look u user e = rw e refl

  -- The credentials name the first user.
  unfoldable pub known : Form → Slots A → Option ℕ
  known f rows = present 0 (find 0 rows)

  pub known-finds :
      (f : Form) (rows : Slots A) (u : ℕ)
      → known f rows ≡ some u
      → (user : A) × (find u rows ≡ some user)
  unfolding known
  known-finds f rows u e =
      rw (← present-same 0 u (find 0 rows) e) (present-exists 0 u (find 0 rows) e)

-- No text is the name of a view.
unfoldable pub address : Text → Option Text
address to = if has_slash to then some to else none

pub address-path : (to : Text) → has_slash to ≡ true → address to ≡ some to
unfolding address
address-path to e = rw e refl

module _ {S P T : Type 0} where
  unfoldable pub gate : List Method → Method → View S P T → View S P T
  gate ms m view site = if is_in m ms then view site else (not_allowed, site)

  pub gate-in :
      (ms : List Method) (m : Method) (view : View S P T) (site : S)
      → is_in m ms ≡ true
      → gate ms m view site ≡ view site
  unfolding gate
  gate-in ms m view site e = rw e refl

  pub gate-out :
      (ms : List Method) (m : Method) (view : View S P T) (site : S)
      → is_in m ms ≡ false
      → gate ms m view site ≡ (not_allowed, site)
  unfolding gate
  gate-out ms m view site e = rw e refl

  abbrev pub door : Bool → View S P T → View S P T
  door true view site = view site
  door false view site = (to_login, site)
