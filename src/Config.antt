-- ===== src/Config.antt =====
-- `Config` of nix/gateway.py: the checks that a configuration passes before the gateway starts.
pub mod Validate
mod Tests
