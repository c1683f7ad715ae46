-- ===== src/Providers.antt =====
-- services/payment_providers.py and the phone numbers of security.py.
mod Phone
mod Clients
mod Webhooks
pub mod Numbers
pub mod Amounts
pub mod Queries
unfoldable pub use Phone.*
unfoldable pub use Clients.*
unfoldable pub use Webhooks.*
