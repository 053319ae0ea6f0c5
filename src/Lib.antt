-- ===== src/Lib.antt =====
-- Verification of the core of ecommerce-ops-agent, an operations agent for cross-border commerce.
--
-- The program: an HTTP platform (internal/) runs agents whose tools act on a business system
-- (projects/crossborder). A tool call with side effects waits for a person's approval; an approved
-- call is claimed by a worker under a lease, and carries an idempotency key into the business system.
-- Who may do what is a matter of the roles that users have in a workspace.
-- Documents become chunks of a knowledge base.
--
-- Files, and the code they are about (paths from the repository's root):
--   Base            shared: Go's `==`, Boolean tests, lists, maps as association lists, integers over
--                   the native numbers, insertion sort for `sort.Slice`, results with an error.
--   Crossborder     projects/crossborder/internal. Domain holds the structs of domain/models.go,
--                   State the struct `Service`, Seeded `NewSeeded`, Queries the read-only methods;
--                   Transfer, Warehouse, Refund and Reconciliation one mutating method each
--                   (`CreateTransfer`, `ChangeFulfillmentWarehouse`, `ApproveRefund`,
--                   `CreateReconciliation`), with their theorems below them. History runs any sequence
--                   of the four: each takes the mutex for its whole body, so an interleaving of
--                   callers is such a sequence.
--   Approval        internal/platform/approval and internal/platform/approval_gate.go. Record is the
--                   struct, Store the `MemoryStore` and the gate; Store/History runs any sequence of
--                   the calls that change it, at any times.
--   Agent           `MemoryAgentStore` of internal/platform/memory_store.go: agents, versions, the version
--                   that an environment runs, conversations and their turns, and `sliceRange` in Page.
--                   Store/Turns runs any sequence of the calls about conversations.
--                   Agent/Snapshot, Agent/Dependencies and Agent/Service are
--                   internal/platform/agent/service.go: the snapshot that a version of an agent is
--                   pinned to, what it may name, creating versions and promoting them.
--   Iam             internal/platform/iam/service.go, with its store `MemoryIAMStore` of
--                   internal/platform/memory_store.go and the structs of internal/domain/domain.go.
--                   Service/History runs any sequence of the requests that change them.
--   Guard           `memoryLimiter` of internal/runtime/guard/ratelimit.go, in RateLimit.
--   KnowledgeBase   internal/platform/kb. Chunk is chunk.go, with the `strings` functions it uses in
--                   Runes; Store the `MemoryKBStore` of internal/platform/memory_store_m2.go, Record its
--                   structs; Ingest is ingest.go and Sync and Service are service.go, over that store
--                   and over the interfaces of internal/runtime/retriever and internal/connector, which
--                   are parameters. Service/History runs any sequence of their calls; Ingest/Invariants
--                   and Sync/Invariants carry an invariant of the store through a whole call.
--   Cache           internal/runtime/cache/cache.go: Embedding is the cache of embeddings, over the
--                   embedder behind it, and Idempotent the in-memory store of responses.
--   Middleware      internal/api/middleware. Auth is auth.go over Iam. Idempotency is idempotency.go: the
--                   handler behind it, JSON and SHA-256 are parameters, the store is behind its
--                   interface, which Cache/Idempotent fills. Locks are its `keyedLocks`, as a relation
--                   of the steps that any number of threads take, in any order.
--   Tool            `MemoryToolStore` of internal/platform/memory_store_m2.go. Store/History runs any
--                   sequence of the calls that change it.
--   Prompt          `MemoryPromptStore` of internal/platform/memory_store.go.
--
-- Conventions: a method is a function from the state to the new state and its result. The clock
-- and the identifiers that `uuid` makes are arguments; the clock is later than Go's zero time. A
-- `time.Time` is a number of nanoseconds. A map is an association list with one entry a key;
-- where Go ranges over a map, the order is the list's. Money is a whole number of cents where the
-- code has a float64, so rounding and NaN (which JSON cannot carry) are not modelled; counts of
-- units are unbounded, where the code has 64 bits. A text that is cut into chunks is the list of its
-- code points, so bytes that are no UTF-8 are not modelled. What other callers do between the store
-- calls of a synchronisation, and while an ingest embeds, is an argument of these. A struct that Go
-- shares by a pointer is a value here: no method of these stores lets a caller change what it holds
-- but by its own writes.
-- Bounds: a hard cut in `chunkText` shortens the text it cuts, so the length of the text is fuel
-- enough for that loop; the number itself is fuel enough for its decimal digits.
--
-- Not modelled: the PostgreSQL stores and their generated queries, HTTP routing and streaming,
-- telemetry, configuration, command-line programs and clients (input and output, or generated);
-- passwords and tokens (third-party code); the other services of the platform, and the agent
-- engine.
pub mod Base
pub mod Crossborder
pub mod Approval
pub mod Agent
pub mod Iam
pub mod Guard
pub mod KnowledgeBase
pub mod Prompt
pub mod Cache
pub mod Middleware
pub mod Tool
