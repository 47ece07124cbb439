-- ===== src/Anp.antt =====
-- hello_agents/protocols/anp/implementation.py: service descriptions, service discovery and the
-- network of nodes.
pub mod Service
pub mod Discovery
pub mod Network
