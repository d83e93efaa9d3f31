-- ===== src/Event.antt =====
-- Domain events: the event factories of packages/sdk/src/core/sessions/state.ts,
-- core/agents/state.ts, core/llm/state.ts, core/tools/state.ts, core/context/state.ts and
-- plugins/mailbox/state.ts. `other` stands for the events of the remaining plugins, which no
-- reducer that is modelled looks at.
use roj.Base.{ℕ, String, Bool, Option, List}
use roj.Message.{Content, ToolCall, LlmMessage, Json}
use roj.Agent.{AgentStatus, PauseReason, LlmMetrics}

pub data SessionHandler : Type 0 where
  on_session_ready on_session_close : SessionHandler

pub data HandlerName : Type 0 where
  on_start before_inference after_inference before_tool_call after_tool_call : HandlerName
  on_complete on_error on_pause : HandlerName

pub record ForkOrigin : Type 0 where
  pub session_id : String
  pub event_index : ℕ

pub record AgentOverrides : Type 0 where
  pub model : Option String

-- `undefined` leaves a value alone, `null` clears it, an object replaces it.
pub data Patch : Type 0 where
  untouched cleared : Patch
  replaced : AgentOverrides → Patch

pub record LlmResponse : Type 0 where
  pub content : Option String
  pub tool_calls : List ToolCall
  pub reasoning_details : Option (List Json)
  pub thinking_blocks : Option (List Json)

pub record InferenceStarted : Type 0 where
  pub agent_id : String
  pub messages : List LlmMessage
  pub llm_call_id : Option String
  pub input_key : Option String
  pub retried : Bool

pub record ToolDone : Type 0 where
  pub agent_id : String
  pub tool_call_id : String
  pub workspace_ref : Option String
  pub session_ref : Option String

pub record MailboxMessage : Type 0 where
  pub id : String
  pub sender : String
  pub content : String
  pub timestamp : ℕ
  pub consumed : Bool
  pub answer_to : Option String
  pub answer_value : Option Json
  pub attachments : Option (List Json)
  pub context : Option String

pub data EventBody : Type 0 where
  session_created :
      (preset_id : String) (workspace_dir : Option String) (forked_from : Option ForkOrigin)
      → EventBody
  session_closed session_reopened : EventBody
  session_restarted : (reset_agent_ids cleared_tool_agent_ids : List String) → EventBody
  session_metadata_set : (key : String) (value : Json) → EventBody
  session_overrides_set :
      (defaults : Patch) (agents : List (String × Option AgentOverrides)) → EventBody
  session_handler_started : SessionHandler → (plugin_name : String) → EventBody
  session_handler_completed :
      SessionHandler → (plugin_name : String) (duration_ms : ℕ) (error : Option String) → EventBody
  agent_spawned :
      (agent_id definition_name : String) (parent_id : Option String) (typed_input : Option Json)
      → EventBody
  agent_state_changed : (agent_id : String) (from_state to_state : AgentStatus) → EventBody
  handler_started : (agent_id : String) → HandlerName → EventBody
  handler_completed : (agent_id : String) → HandlerName → (result : Option Json) → EventBody
  preamble_added : (agent_id : String) (messages : List LlmMessage) → EventBody
  agent_paused :
      (agent_id : String)
      → PauseReason
      → (message : Option String) (resume_on_input : Bool) → EventBody
  agent_resumed : (agent_id : String) → EventBody
  agent_input_consumed : (agent_id : String) (source_plugins : List String) → EventBody
  communicator_linked : (communicator_id orchestrator_id : String) → EventBody
  agent_conversation_spliced :
      (agent_id : String) (start delete_count : ℕ) (inserted : List LlmMessage) → EventBody
  tool_started : (agent_id tool_call_id tool_name : String) (input : Json) → EventBody
  tool_completed : ToolDone → (result : Content) → EventBody
  tool_failed : ToolDone → (error : String) → EventBody
  inference_started : InferenceStarted → EventBody
  inference_completed : (agent_id : String) → LlmResponse → LlmMetrics → EventBody
  auxiliary_inference_completed : (agent_id : String) → LlmMetrics → EventBody
  inference_failed : (agent_id error : String) → EventBody
  inference_retried : (agent_id : String) → EventBody
  context_compacted : (agent_id : String) (new_history : List LlmMessage) → EventBody
  mailbox_message :
      (to_agent_id : String) (sequence : Option ℕ) (message : MailboxMessage) → EventBody
  mailbox_consumed : (agent_id : String) (message_ids : List String) → EventBody
  other : (event_type : String) → EventBody

pub record DomainEvent : Type 0 where
  pub session_id : String
  pub timestamp : ℕ
  pub body : EventBody
