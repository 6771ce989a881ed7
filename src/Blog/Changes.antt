-- ===== src/Blog/Changes.antt =====
-- The database invariant of the blog, and the changes that keep it.
use til.Prelude.{ℕ, ◌≡◌, ◌≤◌, inl, inr, Bool, false, some, length}
use til.Django.{Text}
use til.Django.Urls.{is_digits}
use til.Django.Tables.{
  insert_cases, insert_keeps, update_cases, update_keeps, remove_cases, remove_keeps,
}
use til.Blog.Models.{
  User, Article, Comment, title_max, comment_max, Backend, Site, delete_article, delete_user,
}

-- At least 8 characters, not all of them digits.
abbrev pub IsStrong : Text → Type 0
IsStrong password = (8 ≤ length password) × (is_digits password ≡ false)

module _ (dj : Backend) where
  open dj use {users, articles, comments}

  -- Every foreign key refers to a row that exists, the texts fit the columns, and the passwords are
  -- strong.
  pub record IsConsistent (site : Site dj) : Type 0 where
    pub author :
        (k : ℕ) (a : Article)
        → articles.find k site.article_rows ≡ some a
        → (u : User) × (users.find a.user site.user_rows ≡ some u)
    pub subject :
        (k : ℕ) (c : Comment)
        → comments.find k site.comment_rows ≡ some c
        → (a : Article) × (articles.find c.article site.article_rows ≡ some a)
    pub title_fits :
        (k : ℕ) (a : Article)
        → articles.find k site.article_rows ≡ some a
        → length a.title ≤ title_max
    pub comment_fits :
        (k : ℕ) (c : Comment)
        → comments.find k site.comment_rows ≡ some c
        → length c.content ≤ comment_max
    pub passwords : (k : ℕ) (u : User) → users.find k site.user_rows ≡ some u → IsStrong u.password

module _ (dj : Backend) (site : Site dj) (h : IsConsistent dj site) where
  open dj use {Session, users, articles, comments}

  pub session-IsConsistent : (s : Session) → IsConsistent dj (record site { session = s })
  session-IsConsistent s = record {
    author = h.author;
    subject = h.subject;
    title_fits = h.title_fits;
    comment_fits = h.comment_fits;
    passwords = h.passwords;
  }

  pub add_article-IsConsistent :
      (row : Article) {u : User}
      → users.find row.user site.user_rows ≡ some u
      → length row.title ≤ title_max
      → IsConsistent dj (record site { article_rows = (articles.insert row site.article_rows).1 })
  add_article-IsConsistent row {u} by fits = record {
    author = λ k a e. elim (insert_cases articles k row a site.article_rows e) [
      | inl new ↦ (u, rw new by)
      | inr old ↦ h.author k a old
    ];
    subject = λ k c e.
        let (a, found) = h.subject k c e in
        (a, insert_keeps articles c.article row a site.article_rows found);
    title_fits = λ k a e. elim (insert_cases articles k row a site.article_rows e) [
      | inl new ↦ rw new fits
      | inr old ↦ h.title_fits k a old
    ];
    comment_fits = h.comment_fits;
    passwords = h.passwords;
  }

  pub edit_article-IsConsistent :
      (pk : ℕ) (row : Article) {u : User}
      → users.find row.user site.user_rows ≡ some u
      → length row.title ≤ title_max
      → IsConsistent dj (record site { article_rows = articles.update pk row site.article_rows })
  edit_article-IsConsistent pk row {u} by fits = record {
    author = λ k a e. elim (update_cases articles k pk row a site.article_rows e) [
      | inl (_, new) ↦ (u, rw new by)
      | inr old ↦ h.author k a old
    ];
    subject = λ k c e.
        let (a, found) = h.subject k c e in
        update_keeps articles c.article pk row a site.article_rows found;
    title_fits = λ k a e. elim (update_cases articles k pk row a site.article_rows e) [
      | inl (_, new) ↦ rw new fits
      | inr old ↦ h.title_fits k a old
    ];
    comment_fits = h.comment_fits;
    passwords = h.passwords;
  }

  pub add_comment-IsConsistent :
      (row : Comment) {a : Article}
      → articles.find row.article site.article_rows ≡ some a
      → length row.content ≤ comment_max
      → IsConsistent dj (record site { comment_rows = (comments.insert row site.comment_rows).1 })
  add_comment-IsConsistent row {a} on fits = record {
    author = h.author;
    subject = λ k c e. elim (insert_cases comments k row c site.comment_rows e) [
      | inl new ↦ (a, rw new on)
      | inr old ↦ h.subject k c old
    ];
    title_fits = h.title_fits;
    comment_fits = λ k c e. elim (insert_cases comments k row c site.comment_rows e) [
      | inl new ↦ rw new fits
      | inr old ↦ h.comment_fits k c old
    ];
    passwords = h.passwords;
  }

  pub drop_comment-IsConsistent :
      (p : ℕ → Comment → Bool)
      → IsConsistent dj (record site { comment_rows = comments.remove p site.comment_rows })
  drop_comment-IsConsistent p = record {
    author = h.author;
    subject = λ k c e. h.subject k c (remove_cases comments k p c site.comment_rows e).0;
    title_fits = h.title_fits;
    comment_fits = λ k c e. h.comment_fits k c (remove_cases comments k p c site.comment_rows e).0;
    passwords = h.passwords;
  }

  pub delete_article-IsConsistent : (pk : ℕ) → IsConsistent dj (delete_article dj pk site)
  unfolding delete_article
  delete_article-IsConsistent pk = record {
    author = λ k a e. h.author k a (remove_cases articles k _ a site.article_rows e).0;
    subject = λ k c e.
        let (old, other) = remove_cases comments k _ c site.comment_rows e in
        let (a, found) = h.subject k c old in
        (a, remove_keeps articles c.article _ a site.article_rows found other);
    title_fits = λ k a e. h.title_fits k a (remove_cases articles k _ a site.article_rows e).0;
    comment_fits = λ k c e. h.comment_fits k c (remove_cases comments k _ c site.comment_rows e).0;
    passwords = h.passwords;
  }

  -- The comments that stay are on articles that stay, and these are by users that stay.
  pub delete_user-IsConsistent : (u : ℕ) → IsConsistent dj (delete_user dj u site)
  unfolding delete_user
  delete_user-IsConsistent u = record {
    author = λ k a e.
        let (old, other) = remove_cases articles k _ a site.article_rows e in
        let (user, found) = h.author k a old in
        (user, remove_keeps users a.user _ user site.user_rows found other);
    subject = λ k c e.
        let (old, other) = remove_cases comments k _ c site.comment_rows e in
        let (a, found) = h.subject k c old in
        (a, remove_keeps articles c.article _ a site.article_rows found (rw found at other));
    title_fits = λ k a e. h.title_fits k a (remove_cases articles k _ a site.article_rows e).0;
    comment_fits = λ k c e. h.comment_fits k c (remove_cases comments k _ c site.comment_rows e).0;
    passwords = λ k u' e. h.passwords k u' (remove_cases users k _ u' site.user_rows e).0;
  }

  pub add_user-IsConsistent :
      (row : User)
      → IsStrong row.password
      → IsConsistent dj (record site { user_rows = (users.insert row site.user_rows).1 })
  add_user-IsConsistent row strong = record {
    author = λ k a e.
        let (user, found) = h.author k a e in
        (user, insert_keeps users a.user row user site.user_rows found);
    subject = h.subject;
    title_fits = h.title_fits;
    comment_fits = h.comment_fits;
    passwords = λ k u e. elim (insert_cases users k row u site.user_rows e) [
      | inl new ↦ rw new strong
      | inr old ↦ h.passwords k u old
    ];
  }

  pub edit_user-IsConsistent :
      (u : ℕ) (row : User)
      → IsStrong row.password
      → IsConsistent dj (record site { user_rows = users.update u row site.user_rows })
  edit_user-IsConsistent u row strong = record {
    author = λ k a e.
        let (user, found) = h.author k a e in
        update_keeps users a.user u row user site.user_rows found;
    subject = h.subject;
    title_fits = h.title_fits;
    comment_fits = h.comment_fits;
    passwords = λ k u' e. elim (update_cases users k u row u' site.user_rows e) [
      | inl (_, new) ↦ rw new strong
      | inr old ↦ h.passwords k u' old
    ];
  }
