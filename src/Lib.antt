-- ===== src/Lib.antt =====
-- The agent framework xgc-agent, a Go program: a scheduler of node graphs (schedule), the memory of
-- conversations (memory), the sessions (session), the tools that an agent calls (tools), the messages
-- that pass between them (message), the prompts (prompt) and the pieces of the texts that are
-- retrieved for them (rag), the models (model), and the agents that ask a model and run the tools it
-- calls (agent). A session has a scheduler, a window of messages and a registry of tools; the
-- short-term memory puts an order and a capacity on top of a memory store.
--
-- Files, and the code that each is about:
-- - Schedule/Graph, Build, Lifecycle: the nodes, the graph's operations and the reset before a run, from
--   schedule/graph.go and schedule/node.go. `add_node` is AddNode, `add_edge` is AddEdge, and so on; nodes
--   live in a heap, since edges share them. Schedule/Decide is scheduleNode, and Schedule/Run the
--   control loop of Run with the goroutines and the channel as a step relation: Run/Work and
--   Run/Ends are about how long a run is, Run/Progress about where it waits, and Run/Success about
--   its end. Schedule/Queue is the message queue of schedule/context.go, as a step relation of its
--   goroutine, `Subscribe` and the readers, and Schedule/Subgraph the node of
--   schedule/subgraph.go.
-- - Memory/IdRing: idRing of memory/type_/util.go, against the queue of Memory/IdQueue.
-- - Memory/Item: the items of memory/base.go and their ids from memory/util.go. Memory/InMemory:
--   InMemoryStore of memory/store/inmem/inmem.go. Memory/ShortTerm: ShortTermMemory of
--   memory/type_/short_term.go, over the interface of memory/store/base.go. Memory/Episodic and
--   Memory/LongTerm: the memories of memory/type_/episodic.go and memory/type_/long_term.go.
--   Memory/Manager: memory/manager. Memory/GraphStore: memory/store/neo4jgraph/graph.go, with the queries
--   in GraphStore/Query and the methods, over the driver, in GraphStore/Methods. Memory/VectorStore:
--   memory/store/pgvector/pgvector.go, with the texts of the statements in VectorStore/Text.
-- - Message: message/message.go; Message/Response: message/request.go and message/response.go.
--   Model/Options: model/options.go. Model/Openai: model/openai/openai.go, with the content of messages,
--   the conversion of a request, the response of a completion and the chunks of a streamed one;
--   Openai/Sent writes out what the reader of a streamed one is to get.
-- - Session/Buffer: session/buffer.go. Session/State: session/session.go. Session/Files:
--   session/store.go, of which the store of files fills the interface that Session/State saves to.
-- - Tools/Registry: tools/registry.go, and in Tools/Registry/Race several callers at once. Tools/Stream:
--   tools/stream.go, over Go's channel, whose rules are written out. Tools/Schema: tools/schema.go.
-- - Agent/React: `executeTool` of agent/agent.go and `Run` of agent/react.go, and Agent/Transcript the
--   messages of a run. Agent/Plan: agent/plan_execute.go. Agent/Provider joins the loop to the provider of
--   Model/Openai, and Agent/Requests is about what such an agent sends.
-- - Rag/Chunker and Rag/Paragraphs: rag/chunker.go. Prompt/Builder: prompt/builder.go.
-- - Prelude: lists, maps, sorting, integers, texts and paths as Go has them.
-- The modules Tests, StoreTests, ShortTermTests, LongTermTests and RequestTests run the definitions on
-- concrete input.
--
-- A method that changes an object takes the object and returns the new one, with its error if it has
-- one; an error is a constructor, and its text is kept only where it carries a name. Loops are
-- recursive on the list or the count that bounds them, so no fuel can run out: the copy of the ring
-- has one round for each id, and trimming one for each message. The loop of trimLocked has as many
-- rounds as the order has ids, and each takes one id out. The decimal text of a number takes the
-- number itself as fuel, and each round divides it by ten; the chunker has as many rounds as the text
-- has runes, and each goes on by at least one. The loop of a subgraph node, which the
-- program does not bound, has a number of rounds given, and says so when they are over.
--
-- A Go map is an association list; where the order of a loop over it can be seen, that order is a
-- parameter. A Go `any` is a parameter type, a time is a number whose zero is Go's zero time, a float
-- is its bits. JSON, SHA-256, the printing of values and a session's store are parameters, and so are
-- the scheduler's Snapshot and Restore, which session calls and schedule does not declare.
--
-- Not modelled: overflow of `int`, which no size in the program reaches; texts that are not valid
-- UTF-8; what a caller does through a pointer that a store gave it; nil receivers, for which the
-- methods return at once; Go types that contain themselves, in the schemas; and the clients of the
-- services and databases, the store on Redis, MCP, embeddings and the texts of the prompts.
pub mod Prelude
pub mod Schedule
pub mod Memory
pub mod Message
pub mod Model
pub mod Session
pub mod Tools
pub mod Rag
pub mod Prompt
pub mod Agent
