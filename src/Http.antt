-- ===== src/Http.antt =====
-- The HTTP side of nix/gateway.py: what a request is read as (Message), what is sent to a backend
-- (Upstream), the console's files (Pages), and the handler with its routes (Routes, Handler).
pub mod Message
pub mod Upstream
pub mod Pages
pub mod Routes
pub mod Handler
pub mod Secrecy
pub mod Forwarding
pub mod Passing
pub mod Confined
pub mod Framing
mod Tests
