-- ===== src/Django/Urls/Exact.antt =====
-- A resolver finds in a list of patterns what stands there, and nothing else.
use mathlib.Core.Option.{none-ne-some}
use til.Prelude.{
  ◌≡◌, sym, ◌∙◌, subst, Bool, true, Option, none, some, List, [], ◌++◌, append_assoc, inl, inr, map,
}
use til.Django.{Text}
use til.Django.Urls.{
  Patterns, done, path, include, admin_site, Mark, letter, marks, Resolver, Finds, apart, bars,
  every_route, distinct, Served, admin_page,
}
use til.Django.Urls.Apart.{
  &&_split, Follows, Follows-append, Spells-Follows, apart_sound, bars_sound,
}

module _ {R : Type 0} (django : Resolver R) where
  open django use {
    resolve, done_none, path_matches, path_passes, path_resolves, include_matches, include_passes,
    include_resolves, admin_matches, admin_passes, admin_resolves,
  }

  -- Whatever the resolver answers, some pattern of the list matches the path and gives it.
  pub resolve-Finds :
      (pats : Patterns R) (text : Text) (r : R) → resolve pats text ≡ some r → Finds pats text r
  resolve-Finds done text r e = none-ne-some r (sym (done_none text) ∙ e)
  resolve-Finds (path p v rest) text r e = elim (path_resolves p v rest text r e) [
    | inl here ↦ inl here
    | inr later ↦ inr (resolve-Finds rest text r later)
  ]
  resolve-Finds (include pre sub rest) text r e = elim (include_resolves pre sub rest text r e) [
    | inl (tail, same, found) ↦ inl (tail, same, resolve-Finds sub tail r found)
    | inr later ↦ inr (resolve-Finds rest text r later)
  ]
  resolve-Finds (admin_site pre find rest) text r e = elim (admin_resolves pre find rest text r e) [
    | inl here ↦ inl here
    | inr later ↦ inr (resolve-Finds rest text r later)
  ]

every_route-Finds :
    {R : Type 0} (test : List Mark → Bool) (above : Text) (pats : Patterns R) (text : Text) (r : R)
    → every_route test above pats ≡ true
    → Finds pats text r
    → (q : List Mark) × (test q ≡ true) × Follows q (above ++ text)
every_route-Finds test above done text r h f = absurd f
every_route-Finds test above (path p v rest) text r h (inl here) = (
  map letter above ++ marks p,
  (&&_split _ _ h).0,
  Follows-append above (marks p) text (Spells-Follows p v text r here),
)
every_route-Finds test above (path p v rest) text r h (inr later) =
    every_route-Finds test above rest text r (&&_split _ _ h).1 later
every_route-Finds test above (include pre sub rest) text r h (inl (tail, e, inside)) =
    let (q, passed, follows) =
      every_route-Finds test (above ++ pre) sub tail r (&&_split _ _ h).0 inside in
    (q, passed, rw (e, ← append_assoc above pre tail) follows)
every_route-Finds test above (include pre sub rest) text r h (inr later) =
    every_route-Finds test above rest text r (&&_split _ _ h).1 later
every_route-Finds test above (admin_site pre find rest) text r h f = absurd (cc)

module _ {R : Type 0} (django : Resolver R) where
  open django use {
    resolve, path_matches, path_passes, include_matches, include_passes, admin_matches,
    admin_passes,
  }

  -- In a list whose routes no path can confuse, a pattern is found wherever it stands.
  pub Finds-resolve :
      (pats : Patterns R) (text : Text) (r : R)
      → distinct pats ≡ true
      → Finds pats text r
      → resolve pats text ≡ some r
  Finds-resolve done text r h f = absurd f
  Finds-resolve (path p v rest) text r h (inl here) =
      path_matches p v rest text r (&&_split _ _ h).0 here
  Finds-resolve (path p v rest) text r h (inr later) =
      let (other, more) = &&_split _ _ (&&_split _ _ h).1 in
      let (q, passed, follows) = every_route-Finds (apart (marks p)) [] rest text r other later in
      path_passes p v rest text
        (λ x here. apart_sound (marks p) q text passed (Spells-Follows p v text x here) follows)
      ∙ Finds-resolve rest text r more later
  Finds-resolve (include pre sub rest) text r h (inl (tail, e, inside)) = rw e (
      include_matches pre sub rest tail r
        (Finds-resolve sub tail r (&&_split (distinct sub) _ h).0 inside))
  Finds-resolve (include pre sub rest) text r h (inr later) =
      let (other, more) = &&_split _ _ (&&_split (distinct sub) _ h).1 in
      let (q, passed, follows) = every_route-Finds (bars pre) [] rest text r other later in
      include_passes pre sub rest text
        (λ tail e. absurd (bars_sound pre q tail passed (rw (← e) follows)))
      ∙ Finds-resolve rest text r more later
  Finds-resolve (admin_site pre find rest) text r h (inl (tail, e, found)) =
      rw e (admin_matches pre find rest tail r found)
  Finds-resolve (admin_site pre find rest) text r h (inr later) =
      let (other, more) = &&_split _ _ h in
      let (q, passed, follows) = every_route-Finds (bars pre) [] rest text r other later in
      admin_passes pre find rest text
        (λ tail e. absurd (bars_sound pre q tail passed (rw (← e) follows)))
      ∙ Finds-resolve rest text r more later

-- No page of the administration site is a view of the project.
pub admin_page-ne-view :
    {Admin View : Type 0} (o : Option Admin) (v : View)
    → ◌≡◌ {A = Option (Served Admin View)} (admin_page o) (some (inr v))
    → ⊥
admin_page-ne-view none v e = cc
admin_page-ne-view (some a) v e = cc

pub same_view :
    {Admin View : Type 0} (P : View → Type 0) (v w : View)
    → ◌≡◌ {A = Served Admin View} (inr v) (inr w)
    → P v
    → P w
same_view P v w e h = subst P (cc) h
