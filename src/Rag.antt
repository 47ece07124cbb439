-- ===== src/Rag.antt =====
-- hello_agents/memory/rag/document.py: documents, their chunks, splitting and merging.
pub mod Split
pub mod Document
pub mod Merge
