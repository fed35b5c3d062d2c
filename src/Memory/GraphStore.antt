-- ===== src/Memory/GraphStore.antt =====
-- `Neo4jGraphStore` of memory/store/neo4jgraph/graph.go: the checks, the texts and parameters of
-- the queries, and what is made of the answers. The driver's run of a transaction is a parameter; a
-- time is a number.
pub mod Query
pub mod Plain
pub mod Methods
mod Tests
