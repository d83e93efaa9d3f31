-- ===== src/Session/Control.antt =====
-- The cases of `coreReducer` that pause, resume, rewrite or recover an agent.
use roj.Base.{
  ℕ, ◌+◌, String, Bool, true, false, Option, none, some, List, [], ◌∷◌, ◌++◌, map, if◌then◌else◌,
  is_empty, take, drop, Dict,
}
use roj.Message.{LlmMessage, user, assistant, tool, system}
use roj.Agent.{
  AgentState, AgentStatus, pending, inferring, tool_exec, errored, paused, PauseReason,
  InferenceCallRef,
}

unfoldable pub on_agent_paused : PauseReason → Option String → Bool → AgentState → AgentState
on_agent_paused reason message resume_on_input agent = record agent {
  status = paused;
  pause_reason = some reason;
  pause_message = message;
  pause_resumes_on_input = resume_on_input;
}

unfoldable pub on_agent_resumed : AgentState → AgentState
on_agent_resumed agent = record agent {
  status = if is_empty agent.pending_tool_calls then pending else tool_exec;
  pause_reason = none;
  pause_message = none;
  pause_resumes_on_input = false;
  completion_handled = false;
}

unfoldable pub on_state_changed : AgentStatus → AgentState → AgentState
on_state_changed to_state agent = record agent { status = to_state }

-- `history.splice(start, deleteCount, ...insert)`
unfoldable pub splice {ℓ} : {A : Type ℓ} → ℕ → ℕ → List A → List A → List A
splice start delete_count inserted history =
    take start history ++ (inserted ++ drop (start + delete_count) history)

unfoldable pub on_conversation_spliced : ℕ → ℕ → List LlmMessage → AgentState → AgentState
on_conversation_spliced start delete_count inserted agent = record agent {
  conversation_history = splice start delete_count inserted agent.conversation_history;
  pending_tool_calls = [];
  pending_tool_results = [];
  pending_messages = [];
  executing_tool_call = none;
  inference_call = none;
  interrupted_inference = none;
  status = pending;
  pause_resumes_on_input = false;
  completion_handled = false;
}

abbrev or_no_ids : Option (List String) → Option (List String)
or_no_ids none = some []
or_no_ids (some ids) = some ids

unfoldable pub compacted_message : LlmMessage → LlmMessage
compacted_message (user m) = user (record m { source_message_ids = or_no_ids m.source_message_ids })
compacted_message (assistant m) = assistant m
compacted_message (tool m) = tool m
compacted_message (system m) = system m

unfoldable pub on_context_compacted : List LlmMessage → AgentState → AgentState
on_context_compacted new_history agent = record agent {
  conversation_history = map compacted_message new_history;
}

unfoldable pub on_preamble_added : List LlmMessage → AgentState → AgentState
on_preamble_added messages agent = record agent { preamble = agent.preamble ++ messages }

unfoldable pub on_start_completed : AgentState → AgentState
on_start_completed agent = record agent { on_start_called = true }

unfoldable pub on_complete_completed : AgentState → AgentState
on_complete_completed agent = record agent { completion_handled = true }

-- `session_restarted`, for one agent: a turn that was running or had failed starts again.
abbrev interrupted_call : AgentStatus → Option InferenceCallRef → Option InferenceCallRef
interrupted_call inferring call = call
interrupted_call _ call = none

abbrev pub is_reset : AgentStatus → Bool
is_reset inferring = true
is_reset errored = true
is_reset _ = false

unfoldable pub reset_turn : AgentState → AgentState
reset_turn agent = record agent {
  status = pending;
  pending_messages = [];
  inference_call = none;
  interrupted_inference = interrupted_call agent.status agent.inference_call;
  consecutive_inference_failures = some 0;
  last_inference_failure_at = none;
}

-- A call that was in flight under a pause.
unfoldable pub drop_call : Option InferenceCallRef → AgentState → AgentState
drop_call none agent = agent
drop_call (some call) agent = record agent {
  pending_messages = [];
  inference_call = none;
  interrupted_inference = some call;
}

restart_turn : AgentState → AgentState
unfolding reset_turn drop_call
restart_turn agent =
    if is_reset agent.status then reset_turn agent else drop_call agent.inference_call agent

unfoldable pub restart_agent : AgentState → AgentState
unfolding restart_turn
restart_agent agent = record (restart_turn agent) { executing_tool_call = none }

unfoldable pub restart_agents : Dict AgentState → Dict AgentState
restart_agents [] = []
restart_agents ((id, agent) ∷ agents) = (id, restart_agent agent) ∷ restart_agents agents
