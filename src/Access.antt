-- ===== src/Access.antt =====
-- backend/app/modules/access_control: accounts, roles, sessions, rate limits, factors and gates.
pub mod Models
pub mod Store
pub mod Keeps
pub mod Returns
pub mod RateLimit
pub mod Roles
pub mod Password
pub mod Users
pub mod Names
pub mod Notices
pub mod Accounts
pub mod Totp
pub mod RecoveryCodes
pub mod Mfa
pub mod Login
pub mod Routes
pub mod SessionApi
pub mod Operations
pub mod Gate
pub mod FactorApi
pub mod SetupApi
pub mod Admin
pub mod Audit
pub mod Redaction
pub mod Sessions
pub mod Examples
