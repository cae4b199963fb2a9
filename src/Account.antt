-- ===== src/Account.antt =====
-- Users, roles and the ways in: the services behind accounts.
mod Tests
pub mod Auth
pub mod Roles
pub mod Admins
pub mod Signups
pub mod SetupTokens
