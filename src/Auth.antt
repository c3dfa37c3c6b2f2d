-- ===== src/Auth.antt =====
-- Authentication in nix/gateway.py: `PasswordStore` (Store), `OidcVerifier.verify` (Oidc) and
-- `Authenticator` (Principal, with the seeding of the first user in Seed).
pub mod Store
pub mod Oidc
pub mod Principal
pub mod Seed
pub mod Sessions
pub mod Refine
pub mod Grants
pub mod Complete
pub mod Login
pub mod Reach
mod Tests
