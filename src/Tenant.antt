-- ===== src/Tenant.antt =====
-- crates/skeg-tenant: tenants, their names for keys and indexes, and their quotas.
pub mod Namespace
pub mod Isolation
pub mod Quota
pub mod Tracker
