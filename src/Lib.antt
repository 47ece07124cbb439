-- ===== src/Lib.antt =====
-- HelloAgents (hello_agents/): parts of an agent framework, modelled and verified.
--
-- The program's parts. `protocols/anp/implementation.py` keeps a directory of services and a
-- network of nodes with directed connections; `protocols/a2a/implementation.py` keeps addresses of
-- agents. `memory/rag/document.py` cuts documents into chunks and merges chunks. `memory/base.py`
-- and `memory/types/working.py` are the short-term memory of an agent: items with an importance
-- and a time, held within a number of items and a number of words; `memory/manager.py` sends calls
-- to several such memories and moves items between them. `tools/registry.py` keeps the tools and
-- functions that agents call by name, and `tools/chain.py` and `tools/async_executor.py` run
-- several of them through that registry. `agents/reflection_agent.py` asks a language model for an
-- answer and for improvements of it; `agents/tool_aware_agent.py` cuts bracketed tool calls out of
-- the stream of a model; `agents/plan_solve_agent.py` asks for a plan and works through its steps,
-- with tool calls; `agents/simple_agent.py` answers one question, with tool calls.
-- `context/builder.py` gathers packets of text from memories, documents and the history, selects
-- some within a budget of tokens and makes a prompt of them. `assistants/user_profile.py` keeps
-- what users prefer in one file each, and `core/session.py` the identifier of an anonymous user.
-- All keep their state in Python lists and insertion-ordered dictionaries.
--
-- Which file models which part.
--   Anp/Service, Anp/Discovery: `ServiceInfo` and `ANPDiscovery`. Anp/Network: `ANPNetwork`, whose two
--     dictionaries are the fields `nodes` and `connections`; a method that may raise KeyError returns
--     an `Outcome`. Network/WellFormed holds the invariant, Network/History sequences of calls,
--     Network/Routes and Network/Removal what routing finds, Network/Counts the statistics.
--   A2a/AgentNetwork and A2a/AgentRegistry: the classes of those names, and `A2AClient.get_info`.
--     AgentNetwork/Discovery says by a relation which addresses give an agent.
--   Rag/Document: documents, chunks and `DocumentProcessor`. Rag/Split: `_split_text` and
--     `_find_split_point`, with Split/Search and Split/Cover. Rag/Merge: `merge_chunks`.
--   Memory/Base: `MemoryItem` and the interface `Environment`. Memory/Working: the state, the priority
--     and the heap; Working/Operations and Working/Forget: the methods, named as in the source; the
--     files beside them prove what the methods keep: Working/History the token count, Working/Limits
--     and Working/Adding that `add` ends, Working/Raising what it leaves where it raises,
--     Working/Removal and Working/Forgetting what goes and what stays.
--   Memory/Manager: `MemoryManager` over `MemoryClass`, an interface for the memory types
--     whose objects are the sum of the classes; Manager/Working fills it with the working memory
--     beside memories of any other class, Manager/Dispatch says which memory a call
--     reaches, Manager/Consolidation and Manager/Conservation what `consolidate_memories` moves.
--   Tools/Registry: `ToolRegistry` over `ToolClass`, an interface for the abstract class `Tool`;
--     Registry/Directory and Registry/Execution compare it with an abstract directory. Tools/Chain:
--     `ToolChain.execute` as a loop over the context and the tools' world, `ToolChainManager` as a
--     dictionary; Chain/Runs and Chain/Manager hold the theorems. Tools/Executor:
--     `AsyncToolExecutor`, compared with the registry in Executor/Batch.
--   Agents/Reflection: the memory, the history and the loop of `ReflectionAgent`; Reflection/Record
--     bounds what a run leaves.
--   Agents/ToolAware: the scanner of `ToolAwareSimpleAgent` and its loop over the chunks of a stream.
--     ToolAware/Extracts is a relation of a text, what is shown of it and its calls; Stream proves
--     that the loop computes it, Chunks that it does not depend on the chunks, Calls that the parser
--     reads back each call.
--   Agents/PlanSolve: the interface `Host` and the pattern of tool calls; PlanSolve/Agent: `Planner`,
--     `Executor` and `PlanAndSolveAgent`. PlanSolve/Parsing, PlanSolve/Rounds and PlanSolve/Record
--     hold the theorems.
--   Agents/Simple: `SimpleAgent` over the interface `Kit`; Simple/Pairs is about the parameters of a
--     tool call, Simple/Loop about the loop of `run`.
--   Context: the packets of `ContextBuilder` and the interface `Platform`; Context/Gather,
--     Context/Select, Context/Structure, Context/Compress and Context/Build are its methods. Below
--     them Select/Greedy and Select/Budget are about the budget, Structure/Shows about what the text
--     shows, Compress/Prefix about what is cut off, Gather/Grows and Build/Keeps about instructions.
--   Users/Profile: `UserProfile` and `UserProfileStore` over the files of a directory, with
--     Profile/Filed and Profile/Coins; Users/Session: the identifier file, with Session/Stable.
--   Support: what the parts share. Support/Dict is a Python dictionary as an association list in
--     insertion order, Support/Outcome the result of code that may raise, Support/Action methods that
--     change an object and may raise, Support/Text and Support/Find strings as lists of code points,
--     Support/Sort the stable `sorted`.
--
-- Numbers, bounds and fuel. Python's integers that are never negative in the code are ℕ; where the
-- code subtracts, the model says what it does at 0. `current_tokens`, which may fall below 0, is a
-- difference of two numbers. Times are microseconds since `datetime.min`, and a duration that reaches
-- behind it raises OverflowError; ages are given in whole minutes and days. `_split_text` runs on the length of the text
-- and one as fuel: each round moves the start by one at least. The loops of
-- `_enforce_capacity_limits` run on the number of memories and one: each round removes a memory.
-- `_parse_tool_calls` and `process_residual` run on the length of their text and one: each round
-- leaves a shorter text, or is the last. `heapq`'s sift runs on the position, which falls in each
-- round. Result `none` of these means that the fuel ran out.
--
-- Outside the model. Floating-point numbers, the clock, md5 digests, the equality of items,
-- `str.format`, `str.rstrip`, `str.lower`, the encoding of tiktoken, `json.loads`, files that
-- cannot be opened, HTTP requests, the language model and what a tool does are parameters. Values
-- of metadata are a type parameter. Objects that the code hands around are values: no part here
-- changes an object that it shares with another, but for the items of a working memory and for the
-- packets of a context. An item carries the identity of its object: `update` changes every entry
-- of the list that is the object, and rebuilds the heap, which holds it too.
-- `consolidate_memories` changes an item when it has taken it out; that another entry of the
-- source may be the same object is not modelled there. Into the packets of a
-- context `_select` writes their relevance: the model gives new packets with it. Left out are
-- the retrieval of the working memory, which scores by scikit-learn, the manager's `add_memory`
-- and statistics, the statistics of the working memory, the rounds around the stream of
-- `ToolAwareSimpleAgent`, the stream and the system prompt of `SimpleAgent`, and the parts of the
-- program not named above: the other agents, the built-in tools, other memories and protocols,
-- evaluation and training.
pub mod Support
pub mod A2a
pub mod Agents
pub mod Anp
pub mod Context
pub mod Memory
pub mod Rag
pub mod Tools
pub mod Users
