-- ===== src/Views.antt =====
-- The `/api/v1` views of nix/gateway.py that project WeftMark's kanban board.
pub mod Kanban
pub mod ChangeSet
pub mod Counts
pub mod Genuine
pub mod Oversight
pub mod Bounded
pub mod Stamps
pub mod Frog
pub mod Lanes
pub mod FrogBounded
pub mod Runtime
pub mod System
mod FrogTests
mod SystemTests
mod Tests
