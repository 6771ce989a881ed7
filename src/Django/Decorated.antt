-- ===== src/Django/Decorated.antt =====
-- What holds of a view under its decorators.
use til.Prelude.{◌≡◌, refl, Bool, true, false, List, Bool-cases, inl, inr, subst, sym}
use til.Django.{Method, is_in, Response, View, Decorators, not_allowed, to_login}

module _ {Site Page Target : Type 0} (d : Decorators Site Page Target) where
  -- A property of the answer and the new site that the view has, and so has a refusal.
  pub methods_ind {κ} :
      (P : Response Page Target × Site → Type κ) (ms : List Method) (m : Method)
      (view : View Site Page Target) (site : Site)
      → P (not_allowed, site)
      → (is_in m ms ≡ true → P (view site))
      → P (d.require_http_methods ms m view site)
  methods_ind P ms m view site refused run = elim (Bool-cases (is_in m ms)) [
    | inl yes_in ↦ subst P (sym (d.method_in ms m view site yes_in)) (run yes_in)
    | inr out ↦ subst P (sym (d.method_out ms m view site out)) refused
  ]

  pub login_ind {κ} :
      (P : Response Page Target × Site → Type κ) (user : Bool) (view : View Site Page Target)
      (site : Site)
      → P (to_login, site)
      → (user ≡ true → P (view site))
      → P (d.login_required user view site)
  login_ind P true view site refused run = subst P (sym (d.logged_in view site)) (run refl)
  login_ind P false view site refused run = subst P (sym (d.logged_out view site)) refused
