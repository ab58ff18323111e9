-- ===== src/App.antt =====
-- The application: BetweenUS/BetweenUS.
pub mod Regex
pub mod Validation
pub mod User
pub mod Auth
pub mod Login
pub mod SignIn
pub mod SignUp
pub mod Application
mod Examples
