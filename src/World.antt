-- ===== src/World.antt =====
-- The state that the services share, and the effects that their code has on it: exceptions
-- (`Exn`), the outside (`Env`), database sessions, RouterOS calls (`World`), and the monad `App`.
mod Errors
mod Outside
mod Actions
mod Transactions
pub mod Keeps
pub mod Failures
pub mod Returns
pub mod Frames
pub use Errors.*
pub use Outside.*
unfoldable pub use Actions.*
unfoldable pub use Transactions.*
