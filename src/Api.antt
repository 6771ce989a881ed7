-- ===== src/Api.antt =====
-- 2022/DB/1017 and 2022/DB/1018: two JSON interfaces, over what they use of Django REST framework.
use til.Prelude.{ℕ, ◌≡◌, true, false, List}
use til.Django.{Method, is_in}
pub mod Articles
pub mod Music

-- What a view answers: with its status, or by an exception that the framework turns into one.
-- `server_error` is an exception that it does not know.
pub data Reply (Content : Type 0) : Type 0 where
  ok_200 : Content → Reply Content
  created_201 : Content → Reply Content
  no_content_204 : ℕ → Reply Content
  bad_request_400 : Reply Content
  not_found_404 : Reply Content
  server_error : Reply Content
  other_status : ℕ → Reply Content

abbrev pub ApiView : Type 0 → Type 0 → Type 0
ApiView Store Content = Store → Reply Content × Store

-- The decorator `api_view(methods)`. A request with another method does not reach the view.
pub record Framework (Store Content : Type 0) : Type 0 where
  pub api_view : List Method → Method → ApiView Store Content → ApiView Store Content
  pub method_in :
      (ms : List Method) (m : Method) (view : ApiView Store Content) (store : Store)
      → is_in m ms ≡ true
      → api_view ms m view store ≡ view store
  pub method_out :
      (ms : List Method) (m : Method) (view : ApiView Store Content) (store : Store)
      → is_in m ms ≡ false
      → (api_view ms m view store).1 ≡ store
