-- ===== src/Memory.antt =====
-- hello_agents/memory: memory items (base.py), the working memory (types/working.py) and the manager
-- of several memories (manager.py).
pub mod Base
pub mod Working
pub mod Manager
mod Samples
