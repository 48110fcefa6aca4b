-- ===== src/Lib.antt =====
-- The korai SDK for Go.
--
-- Session (session.go, llm.go, session/) has the rich session messages, their projection to the
-- flat messages of inference, their wire form, the merge of two histories, the payloads that hub
-- operations sign, the codec that encrypts entries, and the two session stores, of files and of
-- rows. Synchub (session/synchub/) keeps a local session store and a blind hub in step: `push`
-- uploads what changed, `pull` pages through the manifest of the hub, merges its blocks and
-- applies tombstones, and a verified nuke marker ends the namespace; its client sends the requests
-- to the hub, and its settings come from a file and the environment. Audit (audit.go) is a log
-- whose entries form a chain of hashes. Api (client.go, errors.go, auth.go, solve.go, llm.go,
-- localworker.go, billing.go, fleet.go, tenant.go) makes a client from options, sends its requests
-- through the transport of Retry (retry.go), turns responses into results and errors, logs in and
-- out, waits for a search, sends chats, and finds a local worker. Stream (stream.go) parses
-- server-sent events into the events of a completion, and collects them. Tools (tools.go, mcp.go)
-- is the registry that ToolRunner (toolrunner.go) calls in its loop between the model and the
-- tools.
--
-- Session/Projection: `ToSessionMessage` and `ToMessage`. Session/Wire: `MarshalJSON` and
-- `UnmarshalJSON` of session messages. Session/Record, Session/Merge: session/record.go.
-- Session/Signing, Session/Encrypting: session/codec_encrypt.go. Session/FileStore: the store of
-- session/store.go, on the bytes of its files. Session/SqliteStore: session/sqlite.go, a statement
-- being a function on the rows of the table. Synchub/Padding, Nuke, Push, Apply, Pull, Run,
-- Started: the functions of session/synchub/sync.go, with the mutex left out, since a sync runs
-- them one after another. Synchub/Client: session/synchub/client.go, also as the hub of a sync.
-- Synchub/OnSqlite: the SQLite store as the store of a sync. Synchub/Settings:
-- session/synchub/config.go. Audit, Audit/Memory: `Log`, `VerifyChain` and `InMemoryAuditStore`.
-- Retry, Retry/Attempts: `retryDelay` and `RoundTrip`. Api/Options: the options, `New` and
-- `WithOptions` of client.go. Api/Exchange: its requests and responses. Api/Errors: errors.go and
-- `parseAPIError`. Api/Auth, Api/Solve, Api/LocalWorker: auth.go, solve.go, localworker.go.
-- Api/Account: billing.go, fleet.go, tenant.go. Api/Chat, Api/Chat/Streamed: llm.go, its messages
-- on the wire and its calls. Stream, Stream/Collect: `parseSSEStream`, `decodeChunk` and
-- `CollectStream`. Tests: concrete runs.
--
-- Numbers of the program are natural numbers, or the integers of Prelude/Int where the sign
-- matters; the delays of retry.go and the intervals of session/synchub/config.go wrap around as
-- int64 does. A time is a number of nanoseconds with 0 for the zero time. Errors are values
-- without their texts: `none`, `false`, or a constructor of SyncError, ClientError, KeyError,
-- ResolveError or SdkError; the errors of tools and of event streams keep their texts. A Go map is
-- an association list; the order in which Go ranges over a map is the order of that list.
-- `sort.Slice` is an insertion sort that keeps the order of equal keys.
--
-- The loop of `pull` runs on fuel, and `none` means that the fuel ran out; if the cursors of the
-- hub are bounded, fuel above the distance to the bound is enough. `sync` passes the fuel on. The
-- loop of `RoundTrip` runs on one more than the number of retries, which is enough. The loop of
-- `SolveAndWait` reads a list of events, ticks and the end of the context, and `none` means that
-- it still waits when they are used up; the loop of `Run` reads such a list too.
--
-- JSON, hashes, encryption, signatures, base64, the clock, random numbers, the session store, the
-- transports, the database engine, the model and the cursor file are parameters: the records
-- Library, Store, Hub, Disk, FileLibrary, Directory, Catalog, Codec, Engine, RowLibrary, Crypto,
-- Aead, Transport, HttpLibrary, ConfigLibrary, ErrorLibrary, ApiTransport, AuthCalls,
-- BillingCalls, FleetCalls, TokenLibrary, WorkerLibrary, AuditLibrary, ArgsLibrary, Exchange,
-- ChunkLibrary, McpLibrary and RunnerLibrary. A session store is taken to keep what is saved of
-- the sessions that it can keep (IsLawful), a file system to do what it reports (IsDirectory), a
-- database statement to take effect as a whole (IsAtomic), and a cipher to open what it sealed
-- (IsSound), where a theorem says so. JSON is not taken to give back every message: it writes a
-- nil block as an empty text, and the raw input of a tool call with some characters as escapes. A
-- theorem about a stored session asks of the messages of that session that they are read back as
-- written (ReadsBack); what JSON makes of a message is in Session/Wire/RoundTrip and
-- Api/Chat/Messages. Not modelled are logging, generated code, the methods of rag.go, billing.go
-- and tenant.go that only report that they are not implemented, and the opening of the database
-- file.
pub mod Prelude
pub mod Session
pub mod Synchub
pub mod Audit
pub mod Retry
pub mod Stream
pub mod Api
pub mod Tools
pub mod ToolRunner
pub mod Tests
