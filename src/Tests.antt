-- ===== src/Tests.antt =====
-- Runs of the definitions at concrete inputs, and instances of the theorems, for all parts of the
-- library: packets as RouterOS and an SNMP agent send them, and a cipher that stands for AES.
pub mod Wire
pub mod Session
pub mod Snmp
pub mod Encryption
pub mod Tables
pub mod Devices
pub mod Paging
pub mod Orgs
pub mod Wizard
pub mod Saas
pub mod Inputs
pub mod Seed
pub mod Alerts
pub mod Account
pub mod DevicesPage
pub mod Monitoring
pub mod Settings
