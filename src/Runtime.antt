-- ===== src/Runtime.antt =====
-- What one agent's runtime does, packages/sdk/src/core/agents/agent.ts: its plugins, their hooks
-- (core/plugins/hook-types.ts, `HandlerResult` of core/agents/state.ts) and the trace of effects.
-- A trace stands latest first. What a plugin, the provider, a tool or the store answers is a
-- function of the trace at the call; effects that plugins have of their own are not listed.
pub mod Hooks
pub mod Dequeue
pub mod ToolCalls
pub mod Request
pub mod Inference
pub mod Continue
pub mod Replayed
use roj.Base.{ℕ, String, Bool, Option, List, [], ◌∷◌, Result}
use roj.Message.{Content, ContentItem, ToolCall, LlmMessage, Json}
use roj.Agent.{AgentState, LlmMetrics}
use roj.Agent.Loop.{ErrorResumeBackoff}
use roj.Agent.Retry.{LlmError}
use roj.Event.{HandlerName, EventBody}

-- `LLMResponse`, as hooks see and replace it.
pub record Reply : Type 0 where
  pub content : Option String
  pub tool_calls : List ToolCall

pub record ToolOutcome : Type 0 where
  pub is_error : Bool
  pub content : Content

pub data FinishReason : Type 0 where
  stop tool_calls length error : FinishReason

pub record InferenceResponse : Type 0 where
  pub content : Option String
  pub tool_calls : List ToolCall
  pub finish_reason : FinishReason
  pub metrics : LlmMetrics
  pub reasoning_details : Option (List Json)
  pub thinking_blocks : Option (List Json)

pub data HandlerResult : Type 0 where
  skip : Reply → HandlerResult
  modify_response : Reply → HandlerResult
  retry : HandlerResult
  block : (reason : String) → HandlerResult
  replace : ToolCall → HandlerResult
  modify_result : ToolOutcome → HandlerResult
  pause : (reason : Option String) → HandlerResult

-- A hook throws, or returns `null` or a result.
pub data HookOutcome : Type 0 where
  raised : HookOutcome
  returned : Option HandlerResult → HookOutcome

pub data Effect : Type 0 where
  emitted : EventBody → Effect
  ran : HandlerName → (plugin : String) → Effect
  consumed : (plugin token : String) → Effect
  requested : List LlmMessage → Effect
  executed : ToolCall → ToolOutcome → Effect
  scheduled : Effect
  retry_armed : (delay_ms : ℕ) → Effect

abbrev pub Trace : Type 0
Trace = List Effect

pub record DequeueHook : Type 0 where
  pub has_pending_messages : Trace → Bool
  pub get_pending_messages : Trace → Option (List LlmMessage × String)

pub record Plugin : Type 0 where
  pub name : String
  pub hook : HandlerName → Option (Trace → HookOutcome)
  pub dequeue : Option DequeueHook
  -- `beforeDequeue` of a source plugin: whether it holds its messages.
  pub before_dequeue : Option (Trace → String → Bool)
  pub get_status : Option (Trace → Option String)

-- One agent in its surroundings: the state that the store holds for it, the provider behind
-- `withLLMRetry`, the call log, the tools, the file store and `JSON.stringify`.
pub record Runtime : Type 0 where
  pub id : String
  pub plugins : List Plugin
  pub state : Trace → Option AgentState
  pub inference : Trace → Result LlmError InferenceResponse
  pub logged_response : Option (Trace → String → Option InferenceResponse)
  pub generate_llm_call_id : Trace → String
  pub find_tool : Trace → String → Option (Json → Result String Content)
  pub stored_message : LlmMessage → LlmMessage
  pub stored_content : Content → Content
  pub result_json : HandlerResult → Json
  pub content_json : List ContentItem → String
  pub input_key_json : List String → List (String × String) → String
  pub clock : Trace → ℕ
  pub aborted : Trace → Bool
  -- `tryOperation` of the session's activity gives an operation.
  pub available : Trace → Bool
  pub error_resume_backoff : ErrorResumeBackoff

abbrev pub emit : EventBody → Trace → Trace
emit body t = emitted body ∷ t
