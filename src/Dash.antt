-- ===== src/Dash.antt =====
-- `DashPusher` of nix/gateway.py: its state (Pusher), the calls to Dash (Calls), the decisions that Dash
-- sends back (Commands), and when it calls (Schedule, Step).
pub mod Targets
pub mod Admission
pub mod Pusher
pub mod Calls
pub mod Commands
pub mod Schedule
pub mod Step
pub mod Envelope
pub mod Trimming
pub mod Remembering
pub mod Resending
pub mod Timing
pub mod Turns
pub mod Urgency
pub mod Acknowledged
mod PushTests
mod Tests
