-- ===== src/Payments.antt =====
-- services/payment_service.py: payment sessions, from the request of a customer to the access paid for.
mod Respond
mod Complete
mod Open
mod Start
mod Callbacks
mod Poll
mod Reports
pub mod Recording
pub mod Outcomes
pub mod Repeats
pub mod Guards
pub mod Opening
pub mod Totals
pub mod Initiation
pub mod Mismatch
pub mod Ledger
unfoldable pub use Respond.*
unfoldable pub use Complete.*
unfoldable pub use Open.*
unfoldable pub use Start.*
unfoldable pub use Callbacks.*
unfoldable pub use Poll.*
unfoldable pub use Reports.*
