-- ===== src/Lib.antt =====
-- The session engine of Roj: agents whose state is the replay of an event log.
--
-- A session is an append-only list of domain events. Agents run inference and tools and append
-- what happened; the state of the session, with a state machine per agent in it, is only ever
-- what a reducer makes of the log. The store appends batches, guards closed sessions, and keeps
-- a small metadata record in step with the log. A fork copies a prefix of the log, and a restart
-- appends an event that puts interrupted agents back into a state from which they can go on.
--
-- Parts, and the files that model them (paths in this list are below packages/sdk/src):
--
-- Base: the names of the library that every file uses, maps in insertion order (a JavaScript
--   `Map`), results, Boolean tests and lists over the native numbers, integers for cursors.
-- Message, Agent, Event: the data of core/agents/state.ts, core/llm/llm-log-types.ts,
--   core/llm/state.ts, core/tools/schema.ts and the event factories. `EventBody` has one
--   constructor per event type of the core and of the mailbox; `other` is any event of a plugin.
-- Session: `SessionState` of core/sessions/state.ts with its queries. Session/Turn (inference),
--   Session/Tools and Session/Control hold the cases of `coreReducer`, one function of the agent
--   per case; Session/Reducer puts them together as `reduce_body`, `core_reducer` and
--   `reconstruct_session_state`, in the source's order of cases. What the source throws is an
--   error value. `checkRecoveryNeeded` is in Session/Recovery.
-- Session/Projection and Session/Runs are the abstract view that the other proofs use: an event
--   has an effect on at most one agent, or restarts all, and `run_agent` runs one agent alone.
--   Session/Attempts, ToolTurn, Pause and Soundness reason over it.
-- Session/Fork: core/sessions/fork-utils.ts. Session/Sequences: `reserveSequence` of
--   core/sessions/session.ts.
-- Runtime: core/agents/agent.ts. A trace holds what an agent's run did, latest first: the events it
--   emits, the calls of hooks, of the provider, of tools and of the plugins' marks. What those
--   answer, and the state the session shows, are functions of the trace. Runtime/Hooks,
--   Runtime/Dequeue (the gates, the collection and the marks of plugin messages),
--   Runtime/ToolCalls (`executeToolCall`), Runtime/Request and Runtime/Inference (`runInference`),
--   Runtime/Continue (the rounds of `runContinue`, and what a round of hooks leaves).
--   Runtime/Replayed ties the state that a trace shows to the reducer.
-- Sanitize: core/agents/response-sanitizer.ts.
-- Agent/Loop: the decisions of core/agents/agent.ts, and the wait of an errored agent.
-- Agent/Schedule: the scheduling flags of core/agents/agent.ts over the leases of Activity, a step
--   relation of the agent's calls and those of others on the same runtime.
-- Agent/Retry: core/agents/retry.ts. The operation's results by attempt, the abort signal where
--   the loop reads it, and the random jitter are arguments.
-- Activity: core/sessions/runtime-activity.ts, the leases and the teardown of a resident session.
-- WakeKey: core/wake-key.ts, the names of timers.
-- Store: core/events/base-event-store.ts and memory.ts; Store/Metadata: the metadata that an
--   append updates; Store/Recompute: core/events/metadata-utils.ts; Store/Range: `loadRange`;
--   Store/Listing: `listSessionsWithMetadata`. A store runs one operation on a session at a
--   time, so an operation is one function on the two maps.
-- FileStore: core/events/file.ts over the bytes of one session's log. JSON, UTF-8 and the trimming
--   of a line are a codec, whose documented behaviour is the record `Faithful` of
--   FileStore/Contents; what the file system answers in the course of one append is a record of
--   faults. FileStore/Tail is `readLastLines`, FileStore/Range `readRange`, which takes the number
--   of events that the metadata counts. FileStore/Append, Recovery and History (a file from its
--   creation on, through failures and crashes), Tail/Reference and Refines hold the theorems.
-- AgentTree: agent-tree-projection.ts, agent-status.ts and protocol-status.ts of
--   packages/shared/src/projections, the tree of agents that clients build from the same log.
--   AgentTree/Mirror says when it shows what the session has, AgentTree/Conformance that it does.
-- Store/Contract: what the readers of a store rely on of `loadRange`, as an interface that the
--   memory store and, in FileStore/Reader, the file store fill.
-- SessionLifecycle: the method `getEvents` of plugins/session-lifecycle/plugin.ts, over that
--   interface. DebugStore: packages/debug/src/stores/event-store.ts, the client that polls it. All
--   its projections are one function there, of which the agent tree is a part in DebugStore/Shows.
-- Limits: plugins/limits-guard. Limits/Counters is the state slice, Limits/Check the checks and
--   the hooks. The fingerprints of lib/utils/hash.ts are arguments.
-- Mailbox: the state slice, query.ts and helpers.ts of plugins/mailbox.
-- Ports: plugins/services/port-pool.ts. RingBuffer: lib/logger/ring-buffer.ts. Semaphore: the
--   class of lib/utils/concurrency.ts.
-- Examples: a small session at which the theorems are applied.
--
-- Choices. Timestamps, token counts and indices are natural numbers, a cost counts whole units
-- of a fixed fraction of a dollar, and an `unknown` value is its JSON text. Optional flags that
-- are only tested for truth are Booleans. Fields of events that no modelled code reads, and
-- messages for a reader, are left out, and so are the cache marks of a prompt, its system prompt
-- and tools. Loops run over lists, the retry loops over the attempts left: `runInference` is
-- repeated at most three times, an empty response asked for again at most twice, as the source's
-- constants say. The loop of `runContinue` ends when there is nothing to do, which plugins and
-- the provider decide, so it takes a number of rounds. The reader in Store/Paging, which polls
-- `loadRange` until a page is empty, takes fuel, and its theorem says how much is enough. The
-- backwards reading of a file takes as many turns as the file has bytes, of which each turn
-- reads at least one. The limit and the offset of `getEvents` are not negative. A failed append
-- leaves a prefix of what it was to write behind the log.
--
-- Not modelled: the scheduler of the host, the drains before a teardown, the prompt and the
-- tools of a request, waiters and resources of a runtime's guard, `mapWithConcurrency` and
-- `withDeadline`, the other plugins, model providers, the metadata files, cache and directories
-- of the file store, the display order of the agent tree and the other projections, the file
-- system, sandboxes, transport, servers, command line and user interfaces. They are effects
-- around the engine or clients of it.
pub mod Activity
pub mod Agent
pub mod AgentTree
pub mod Base
pub mod DebugStore
pub mod Event
pub mod Examples
pub mod FileStore
pub mod Limits
pub mod Mailbox
pub mod Message
pub mod Ports
pub mod RingBuffer
pub mod Runtime
pub mod Sanitize
pub mod Semaphore
pub mod Session
pub mod SessionLifecycle
pub mod Store
pub mod WakeKey
