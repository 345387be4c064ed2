-- ===== src/Api.antt =====
-- The API server, apps/api/src: the tables it keeps (packages/db/src/schema), the guards of its
-- procedures, and its routers.
pub mod Database
pub mod Schema
pub mod Context
pub mod Tenancy
pub mod Devices
pub mod Config
pub mod Orgs
pub mod Alerts
pub mod Sites
pub mod Audit
pub mod Billing
pub mod Auth
pub mod Seed
