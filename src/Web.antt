-- ===== src/Web.antt =====
-- The web server: webserver/src and service/authentication/src.
pub mod Auth
pub mod Plugins
pub mod Sessions
pub mod Access
pub mod Handler
pub mod Kept
pub mod Gate
pub mod Left
pub mod Login
