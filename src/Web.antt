-- ===== src/Web.antt =====
-- The web application, apps/web/src: the states that its components keep and what their handlers do.
pub mod Text
pub mod Unique
pub mod Format
pub mod Wizard
pub mod Alerts
pub mod Account
pub mod Devices
pub mod Detail
pub mod Monitoring
pub mod Settings
pub mod Sidebar
