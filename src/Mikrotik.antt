-- ===== src/Mikrotik.antt =====
-- services/mikrotik_service.py: the operations on a router through the RouterOS API.
mod Api
pub mod Frames
mod Users
pub mod Traffic
mod Portal
mod Duration
pub mod Times
unfoldable pub use Api.*
unfoldable pub use Users.*
unfoldable pub use Traffic.*
unfoldable pub use Duration.*
unfoldable pub use Portal.*
