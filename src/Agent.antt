-- ===== src/Agent.antt =====
-- vpn_agent/agent.py: the agent that keeps the L2TP peers of the control network.
mod Store
mod Nonces
mod Requests
pub mod Replay
pub mod Pool
pub mod Peers
pub mod Refinement
unfoldable pub use Store.*
unfoldable pub use Nonces.*
unfoldable pub use Requests.*
