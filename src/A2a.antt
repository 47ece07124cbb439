-- ===== src/A2a.antt =====
-- The agent network and the agent registry of protocols/a2a/implementation.py.
pub mod AgentNetwork
pub mod AgentRegistry
mod Tests
