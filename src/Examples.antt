-- ===== src/Examples.antt =====
-- A small session and its log, at which the theorems are applied.
pub mod Session
pub mod Agent
pub mod Store
pub mod FileStore
pub mod Limits
pub mod Mailbox
pub mod WakeKey
pub mod Runtime
pub mod Schedule
pub mod Activity
pub mod Utilities
pub mod ToolPhase
pub mod AgentTree
pub mod DebugStore
use roj.Base.{String, ℕ, true, false, none, some, List, [], ◌∷◌}
use roj.Message.{ToolCall, plain}
use roj.Agent.{AgentState, tool_exec, paused, manual, LlmMetrics, create_agent_state}
use roj.Event.{
  EventBody, session_created, session_closed, agent_spawned, agent_paused, inference_started,
  inference_completed, tool_completed, session_handler_started, on_session_close, DomainEvent,
  LlmResponse, ToolDone,
}
use roj.Session.{SessionState, create_session_state}

abbrev pub event : ℕ → EventBody → DomainEvent
event now body = record { session_id = "s1"; timestamp = now; body = body }

abbrev pub created : DomainEvent
created = event 1 (session_created "preset" none none)

abbrev pub spawned : DomainEvent
spawned = event 2 (agent_spawned "a1" "worker" none none)

abbrev pub pause : DomainEvent
pause = event 3 (agent_paused "a1" manual none false)

abbrev pub call : String → ToolCall
call id = record { id = id; name = "read_file"; input = "{}" }

abbrev pub response : LlmResponse
response = record {
  content = some "On it.";
  tool_calls = call "c1" ∷ call "c2" ∷ [];
  reasoning_details = none;
  thinking_blocks = none;
}

abbrev pub metrics : LlmMetrics
metrics = record {
  prompt_tokens = 10;
  completion_tokens = 5;
  total_tokens = 15;
  latency_ms = 20;
  model = "small";
  provider = none;
  cost = some 3;
  cached_tokens = none;
  cache_write_tokens = none;
}

abbrev pub inference : DomainEvent
inference = event 4 (inference_completed "a1" response metrics)

abbrev pub tool_done : DomainEvent
tool_done = event 5 (
    tool_completed
      (record {
        agent_id = "a1";
        tool_call_id = "c1";
        workspace_ref = some "w1";
        session_ref = none;
      })
      (plain "done"))

abbrev pub close : DomainEvent
close = event 6 session_closed

abbrev pub closing : DomainEvent
closing = event 7 (session_handler_started on_session_close "mailbox")

-- An agent with two calls to execute.
abbrev pub busy : AgentState
busy = record (create_agent_state "a1" "worker") {
  status = tool_exec;
  pending_tool_calls = call "c1" ∷ call "c2" ∷ [];
}

abbrev pub paused_agent : AgentState
paused_agent = record busy { status = paused; pause_reason = some manual; on_start_called = true }

abbrev pub session_of : AgentState → SessionState
session_of a = record (create_session_state "s1" "preset" 1) { agents = ("a1", a) ∷ [] }
