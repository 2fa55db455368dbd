-- ===== src/Access/Routes.antt =====
-- access_control/authorization.py: the permissions that a request to the platform needs.
pub mod Required
pub mod Scanning
pub mod Response
pub mod Table
pub mod Known
pub mod Guarded
