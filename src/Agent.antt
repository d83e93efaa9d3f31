-- ===== src/Agent.antt =====
-- The state of one agent: packages/sdk/src/core/agents/state.ts, core/tools/schema.ts and the
-- metrics of core/llm/state.ts. An optional flag that is absent reads as `false`, as the program's
-- truth tests do; a cost counts whole units of a fixed fraction of a dollar.
pub mod Loop
pub mod Retry
pub mod Schedule
use roj.Base.{ℕ, String, Bool, true, false, Option, none, some, List, [], if◌then◌else◌, ◌=ₛ◌}
use roj.Message.{Content, ToolCall, LlmMessage, Json}

pub data AgentStatus : Type 0 where
  pending inferring tool_exec errored paused : AgentStatus

pub data PauseReason : Type 0 where
  limit handler manual : PauseReason

pub record LlmMetrics : Type 0 where
  pub prompt_tokens : ℕ
  pub completion_tokens : ℕ
  pub total_tokens : ℕ
  pub latency_ms : ℕ
  pub model : String
  pub provider : Option String
  pub cost : Option ℕ
  pub cached_tokens : Option ℕ
  pub cache_write_tokens : Option ℕ

pub record PendingToolResult : Type 0 where
  pub tool_call_id : String
  pub tool_name : String
  pub timestamp : ℕ
  pub is_error : Bool
  pub content : Content

pub record ExecutingToolCall : Type 0 where
  pub tool_call_id : String
  pub tool_name : String
  pub started_at : ℕ

pub record InferenceCallRef : Type 0 where
  pub llm_call_id : String
  pub input_key : String

pub record AgentState : Type 0 where
  pub id : String
  pub definition_name : String
  pub parent_id : Option String
  pub status : AgentStatus
  pub conversation_history : List LlmMessage
  pub preamble : List LlmMessage
  pub pending_tool_calls : List ToolCall
  pub executing_tool_call : Option ExecutingToolCall
  pub pending_tool_results : List PendingToolResult
  pub pending_messages : List LlmMessage
  pub typed_input : Option Json
  pub on_start_called : Bool
  pub completion_handled : Bool
  pub turn_number : Option ℕ
  pub pause_reason : Option PauseReason
  pub pause_message : Option String
  pub pause_resumes_on_input : Bool
  pub last_inference_metrics : Option LlmMetrics
  pub consecutive_inference_failures : Option ℕ
  pub last_inference_failure_at : Option ℕ
  pub inference_call : Option InferenceCallRef
  pub interrupted_inference : Option InferenceCallRef

abbrev pub is_paused : AgentStatus → Bool
is_paused paused = true
is_paused _ = false

-- An absent string and the empty one are both false in a truth test.
abbrev pub truthy : Option String → Option String
truthy none = none
truthy (some s) = if s =ₛ "" then none else some s

-- `createAgentState` with no overrides.
unfoldable pub create_agent_state : String → String → AgentState
create_agent_state id definition_name = record {
  id = id;
  definition_name = definition_name;
  parent_id = none;
  status = pending;
  conversation_history = [];
  preamble = [];
  pending_tool_calls = [];
  executing_tool_call = none;
  pending_tool_results = [];
  pending_messages = [];
  typed_input = none;
  on_start_called = false;
  completion_handled = false;
  turn_number = none;
  pause_reason = none;
  pause_message = none;
  pause_resumes_on_input = false;
  last_inference_metrics = none;
  consecutive_inference_failures = none;
  last_inference_failure_at = none;
  inference_call = none;
  interrupted_inference = none;
}
