-- ===== src/Lib.antt =====
-- The MCP server for DynamoDB, modelled part by part.
--
-- The server (server/) answers HTTP requests. A middleware (server/auth.go) finds the role that a
-- request's token gives, a gate (server/server.go) stands before the MCP handler, and the MCP
-- handler dispatches on a tool's name (server/chat.go). Heavy tools run as background jobs, which
-- Kafka or an in-process queue delivers to a worker (server/handlers.go); a row of a SQLite table
-- (server/store.go) is the claim of a worker on a job and later holds its result. Requests are
-- checked by guardrails (internal/engine/guardrails.go) against a configuration
-- (internal/engine/config.go). Documents are cut into chunks before they are embedded
-- (internal/rag/chunker.go).
--
-- Engine.Config: the configuration's records and LoadConfig with its defaults. The text of the
--   file is decoded by a YAML library: ConfigFile is what that gives. float64 is an abstract type
--   with the comparisons that the source uses (Prelude.Float).
-- Engine.Values, Engine.Guardrail: attribute values and their sizes, and the methods of Guardrail,
--   under their names in snake case. A method that returns an error or nil returns a test or a
--   list of what is wrong. A Go map is an association list, in one of its visiting orders.
-- Rag.Chunker: the loop of Chunk. Both settings are signed, a slice out of range is a panic, and
--   the loop runs on fuel: one round more than there are words is enough, for any settings.
--   Rag.Defaults puts the settings of Engine.Config into it.
-- Server.Auth, Server.Tools, Server.Gate, Server.Http: the endpoint that a request reaches. What
--   crosses the boundary is decoded: a body is the list of its JSON-RPC messages.
-- Server.Store, Server.Jobs: the statements on processed_ops_by_job, and the two job paths, each
--   split at the call of executeJobOp, so that a worker's two halves are steps that others may
--   come between. Times are in seconds.
--   Server.Jobs.Execute is executeJobOp itself, over the answers of the tools' handlers.
-- Kafka.Config, Kafka.Consumer: the defaults of LoadConfig, the topics of NewClient, and the loops of
--   processWithRetry and ConsumeClaim (internal/kafka). A handler is given by what its attempts on
--   a message return, and messages differ by their offsets; what the select of ConsumeClaim takes, messages
--   and the end of the session, is a list. The loop of retries runs on MaxRetries rounds and one more, which is proved enough.
-- Risk.Level, Risk.Design, Risk.Writes, Risk.BatchPut: the analyses of internal/risk/analyzer.go for
--   new tables, puts, deletes and batches of them, with the source's texts as reasons, and what
--   checkRisk and withRiskAnalysis (server/tools.go) make of them. Marshalling by the AWS library,
--   the printing of numbers and BatchGetItem are parameters. getBatchFromDB runs on one round more
--   than there are keys, which is proved enough for batches of at least one key.
-- Risk.Updates, Risk.Capacity, Risk.Advisor: the analyses of updates, scans, batches of reads and changes
--   of a table, and the advisor (internal/risk/advisor.go) with its count of scans. A scan's fingerprint
--   and arithmetic on float64 are parameters, and so are the answers of DynamoDB, the two of GetItem
--   that an update's analysis asks for being independent of each other.
-- Server.Dashboard: the JSON endpoints of server/dashboard.go; the list of tables is DynamoDB's first
--   page, as in the source.
-- Server.Registry: addTools and buildToolDefs (server/tools.go), beside the dispatch of the chat.
-- Risk.Dispatch, Risk.Calls: Analyze, which chooses the analysis, and withRiskAnalysis (server/tools.go),
--   which warns, queues a job, or calls the handler.
-- Handlers: the handlers of server/handlers.go that put, delete and update items, one by one and in
--   batches, that read items, and that create, change or delete a table. A handler is a run that may
--   return early (Handlers.Effects); its calls of DynamoDB, its audit entries and its notifications
--   make a trace, and each answer of DynamoDB is a function of the trace before it. Go's `any`,
--   marshalling, JSON and bcrypt are parameters (Handlers.Passwords.Values); metrics and the capacity
--   that DynamoDB reports are left out. Three tries of a batch are the source's bound; the batches of
--   25 are made by Prelude.Chunks, on one round more than there are requests, which is proved enough.
-- Server.Notifications, Server.Store.Writer: which notifications are let through and what they reach,
--   the reading of dead letters (server/kafka.go), and the tries of a write to SQLite. The timer that
--   forgets a notification's key is taken to fire on time; ten tries are the source's bound.
-- Queue: the in-process worker pool (internal/queue/queue.go). The callers of Submit and Enqueue, the
--   goroutines of Start and Shutdown interleave: an action is one step of one of them, and a schedule
--   is a list of actions. Queue.Moves is the same as a relation. Which of the callers that wait to send comes first is left open.
-- Rag.Pipeline: ingestion and search (internal/rag/pipeline.go) over an embedder, a vector store and
--   SHA-256. The digits of an index are found on fuel, one round more than the index, which is more
--   than it has digits.
-- Server.Chat: the chat's history, the loop of generateChat over what the language model answers, the
--   calls of tools, and the messages that constructMessages (internal/llm/client.go) makes. The loop
--   runs on the source's ten rounds.
--
-- Not modelled: clients of DynamoDB, Qdrant and the language model, the metrics, the audit
-- log and the frontend, which call other services or show what these answer; and the handlers of
-- the other tools: batch reads, lists and descriptions of tables, and documents.
pub mod Engine
pub mod Handlers
pub mod Kafka
pub mod Prelude
pub mod Queue
pub mod Rag
pub mod Risk
pub mod Server
