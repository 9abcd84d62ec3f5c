-- ===== src/Netmate.antt =====
-- The installer for the netmate meter: src/netmate_ipfix_policy_rule_installer.cpp and the mappings
-- that it is configured with.
pub mod Names
pub mod Field
pub mod Application
pub mod Action
pub mod Meter
pub mod Commands
pub mod Installer
