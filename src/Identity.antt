-- ===== src/Identity.antt =====
-- modules/identity/application: the decision of an authorization, and temporary grants.
pub mod Tables
pub mod Authorization
pub mod Privilege
pub mod AuthorizationLaws
pub mod Allowances
pub mod Denials
pub mod PrivilegeLaws
