-- ===== src/Agents.antt =====
-- hello_agents/agents: the reflection agent (reflection_agent.py) with its base class (core/agent.py).
pub mod Reflection
pub mod PlanSolve
pub mod Simple
pub mod ToolAware
