-- ===== src/Tools.antt =====
-- hello_agents/tools: the registry of tools (registry.py), chains of tools
-- (chain.py) and the asynchronous executor (async_executor.py).
pub mod Registry
pub mod Chain
pub mod Executor
