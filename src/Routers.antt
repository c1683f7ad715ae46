-- ===== src/Routers.antt =====
-- services/router_service.py: the routers of an operator.
mod Access
mod Deletion
mod Checks
mod Legacy
pub mod Tenancy
pub mod Retired
unfoldable pub use Access.*
unfoldable pub use Deletion.*
unfoldable pub use Checks.*
unfoldable pub use Legacy.*
