-- ===== src/Admin.antt =====
-- admin/users.py and admin/auth.py: the operators' accounts and sessions, and who may do what.
pub mod Split
pub mod Strip
pub mod Password
pub mod Store
pub mod Token
pub mod Sessions
pub mod Writer
pub mod Auth
pub mod Login
pub mod Oidc
pub mod Users
pub mod Addresses
