-- ===== src/Models.antt =====
-- database/models.py: one record for each table, and the tables together.
mod Accounts
mod Access
mod Billing
mod Tables
pub use Accounts.*
pub use Access.*
pub use Billing.*
unfoldable pub use Tables.*
