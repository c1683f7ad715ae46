-- ===== src/Access.antt =====
-- services/access_service.py: the accounts of customers, kept in step with the routers.
mod Rows
mod Customers
mod Paid
mod Cleanup
pub mod Frames
pub mod Same
pub mod CleanupTotals
pub mod Renewals
unfoldable pub use Rows.*
unfoldable pub use Customers.*
unfoldable pub use Paid.*
unfoldable pub use Cleanup.*
