-- ===== src/Blog/Urls/Routing/Addresses.antt =====
-- The paths that resolve to the views of the blog.
use til.Prelude.{◌≡◌, ◌↔◌, inl, inr, refl, Option, some, [], ◌++◌}
use til.Django.{Text}
use til.Django.Urls.{codes, Finds, Resolver, Served}
use til.Django.Urls.Exact.{resolve-Finds, Finds-resolve, admin_page-ne-view, same_view}
use til.Blog.Urls.{
  Route, articles_index, articles_create, articles_detail, articles_delete, articles_update,
  articles_comment_create, articles_comment_delete, accounts_login, accounts_logout,
  accounts_signup, accounts_delete, accounts_update, accounts_change_password,
}
use til.Blog.Urls.Routing.{articles_urlpatterns, accounts_urlpatterns, urlpatterns, IsAddress}

module _ {Admin : Type 0} where
  articles-IsAddress :
      (route : Route) (text : Text)
      → Finds (articles_urlpatterns {Admin = Admin}) text (inr route)
      → IsAddress route (codes "articles/" ++ text)
  articles-IsAddress route text (inl (e, same)) =
      same_view (λ x. IsAddress x (codes "articles/" ++ text)) articles_index route same
        ([], tt, rw e refl)
  articles-IsAddress route text (inr (inl (tail, e, (nil, same)))) =
      same_view (λ x. IsAddress x (codes "articles/" ++ text)) articles_create route same
        ([], tt, rw (e, nil) refl)
  articles-IsAddress route text (inr (inr (inl (pk, d, tail, value, e, (end, e', (nil, same)))))) =
      same_view (λ x. IsAddress x (codes "articles/" ++ text)) (articles_detail pk) route same
        (d, value, rw (e, e', nil) refl)
  articles-IsAddress route text
        (inr (inr (inr (inl (pk, d, tail, value, e, (end, e', (nil, same))))))) =
      same_view (λ x. IsAddress x (codes "articles/" ++ text)) (articles_delete pk) route same
        (d, value, rw (e, e', nil) refl)
  articles-IsAddress route text
        (inr (inr (inr (inr (inl (pk, d, tail, value, e, (end, e', (nil, same)))))))) =
      same_view (λ x. IsAddress x (codes "articles/" ++ text)) (articles_update pk) route same
        (d, value, rw (e, e', nil) refl)
  articles-IsAddress route text
        (inr (inr (inr (inr (inr (inl (pk, d, tail, value, e, (end, e', (nil, same))))))))) =
      same_view (λ x. IsAddress x (codes "articles/" ++ text)) (articles_comment_create pk) route
        same (d, value, rw (e, e', nil) refl)
  articles-IsAddress route text
        (inr (
          inr (
            inr (
              inr (
                inr (inr (inl (tail, e, (pk, d, tail', value, e', (end, e'', (nil, same))))))))))) =
      same_view (λ x. IsAddress x (codes "articles/" ++ text)) (articles_comment_delete pk) route
        same (d, value, rw (e, e', e'', nil) refl)
  articles-IsAddress route text (inr (inr (inr (inr (inr (inr (inr end))))))) = absurd end

  accounts-IsAddress :
      (route : Route) (text : Text)
      → Finds (accounts_urlpatterns {Admin = Admin}) text (inr route)
      → IsAddress route (codes "accounts/" ++ text)
  accounts-IsAddress route text (inl (tail, e, (nil, same))) =
      same_view (λ x. IsAddress x (codes "accounts/" ++ text)) accounts_login route same
        ([], tt, rw (e, nil) refl)
  accounts-IsAddress route text (inr (inl (tail, e, (nil, same)))) =
      same_view (λ x. IsAddress x (codes "accounts/" ++ text)) accounts_logout route same
        ([], tt, rw (e, nil) refl)
  accounts-IsAddress route text (inr (inr (inl (tail, e, (nil, same))))) =
      same_view (λ x. IsAddress x (codes "accounts/" ++ text)) accounts_signup route same
        ([], tt, rw (e, nil) refl)
  accounts-IsAddress route text (inr (inr (inr (inl (tail, e, (nil, same)))))) =
      same_view (λ x. IsAddress x (codes "accounts/" ++ text)) accounts_delete route same
        ([], tt, rw (e, nil) refl)
  accounts-IsAddress route text (inr (inr (inr (inr (inl (tail, e, (nil, same))))))) =
      same_view (λ x. IsAddress x (codes "accounts/" ++ text)) accounts_update route same
        ([], tt, rw (e, nil) refl)
  accounts-IsAddress route text (inr (inr (inr (inr (inr (inl (tail, e, (nil, same)))))))) =
      same_view (λ x. IsAddress x (codes "accounts/" ++ text)) accounts_change_password route same
        ([], tt, rw (e, nil) refl)
  accounts-IsAddress route text (inr (inr (inr (inr (inr (inr end)))))) = absurd end

  urlpatterns-IsAddress :
      (admin : Text → Option Admin) (route : Route) (text : Text)
      → Finds (urlpatterns admin) text (inr route)
      → IsAddress route text
  urlpatterns-IsAddress admin route text (inl (tail, e, found)) =
      absurd (admin_page-ne-view (admin tail) route found)
  urlpatterns-IsAddress admin route text (inr (inl (tail, e, here))) =
      rw e (articles-IsAddress route tail here)
  urlpatterns-IsAddress admin route text (inr (inr (inl (tail, e, here)))) =
      rw e (accounts-IsAddress route tail here)
  urlpatterns-IsAddress admin route text (inr (inr (inr end))) = absurd end

  IsAddress-urlpatterns :
      (admin : Text → Option Admin) (route : Route) (text : Text)
      → IsAddress route text
      → Finds (urlpatterns admin) text (inr route)
  IsAddress-urlpatterns admin articles_index text (d, u, e) = inr (inl (_, e, inl (refl, refl)))
  IsAddress-urlpatterns admin articles_create text (d, u, e) =
      inr (inl (_, e, inr (inl ([], refl, (refl, refl)))))
  IsAddress-urlpatterns admin (articles_detail pk) text (d, value, e) =
      inr (inl (_, e, inr (inr (inl (pk, d, _, value, refl, ([], refl, (refl, refl)))))))
  IsAddress-urlpatterns admin (articles_delete pk) text (d, value, e) =
      inr (inl (_, e, inr (inr (inr (inl (pk, d, _, value, refl, ([], refl, (refl, refl))))))))
  IsAddress-urlpatterns admin (articles_update pk) text (d, value, e) =
      inr
        (inl (_, e, inr (inr (inr (inr (inl (pk, d, _, value, refl, ([], refl, (refl, refl)))))))))
  IsAddress-urlpatterns admin (articles_comment_create pk) text (d, value, e) = inr (
      inl
        (_, e, inr (inr (inr (inr (inr (inl (pk, d, _, value, refl, ([], refl, (refl, refl))))))))))
  IsAddress-urlpatterns admin (articles_comment_delete pk) text (d, value, e) = inr (
      inl (
        _,
        e,
        inr (
            inr (
              inr (
                inr
                  (inr (inr (inl (_, refl, (pk, d, _, value, refl, ([], refl, (refl, refl)))))))))),
      ))
  IsAddress-urlpatterns admin accounts_login text (d, u, e) =
      inr (inr (inl (_, e, inl ([], refl, (refl, refl)))))
  IsAddress-urlpatterns admin accounts_logout text (d, u, e) =
      inr (inr (inl (_, e, inr (inl ([], refl, (refl, refl))))))
  IsAddress-urlpatterns admin accounts_signup text (d, u, e) =
      inr (inr (inl (_, e, inr (inr (inl ([], refl, (refl, refl)))))))
  IsAddress-urlpatterns admin accounts_delete text (d, u, e) =
      inr (inr (inl (_, e, inr (inr (inr (inl ([], refl, (refl, refl))))))))
  IsAddress-urlpatterns admin accounts_update text (d, u, e) =
      inr (inr (inl (_, e, inr (inr (inr (inr (inl ([], refl, (refl, refl)))))))))
  IsAddress-urlpatterns admin accounts_change_password text (d, u, e) =
      inr (inr (inl (_, e, inr (inr (inr (inr (inr (inl ([], refl, (refl, refl))))))))))

-- A path resolves to a view of the blog exactly if it is that view's path with a decimal notation of
-- its number: no pattern takes a path of another, and every view has its paths.
pub resolve-IsAddress :
    {Admin : Type 0} (django : Resolver (Served Admin Route)) (admin : Text → Option Admin)
    (route : Route) (text : Text)
    → (django.resolve (urlpatterns admin) text ≡ some (inr route)) ↔ IsAddress route text
resolve-IsAddress django admin route text = (
  λ e. urlpatterns-IsAddress admin route text (resolve-Finds django (urlpatterns admin) text _ e),
  λ h.
      Finds-resolve django (urlpatterns admin) text _ refl
        (IsAddress-urlpatterns admin route text h),
)
