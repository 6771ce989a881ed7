-- ===== src/Blog.antt =====
-- 2022/DB/1006/02_db_workshop_skeleton: a blog with accounts, articles and comments.
pub mod Models
pub mod Changes
pub mod Articles
pub mod Accounts
pub mod Urls
