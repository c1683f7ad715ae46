-- ===== src/Crud.antt =====
-- database/crud.py: the transaction-neutral queries and inserts.
mod Users
mod Routers
mod Sessions
pub mod Puts
unfoldable pub use Users.*
unfoldable pub use Routers.*
unfoldable pub use Sessions.*
