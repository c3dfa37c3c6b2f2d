-- ===== src/Decisions.antt =====
-- Decisions from Dash in nix/gateway.py: the calls to the local services (Calls), `apply_command`
-- (Check, Hold, Apply), and what is proved of it.
pub mod Calls
pub mod Check
pub mod Reports
pub mod Audit
pub mod Hold
pub mod Apply
pub mod Events
pub mod Lookups
pub mod Protocol
pub mod Recorded
pub mod Guards
mod Tests
