-- ===== src/Session/Turn.antt =====
-- The inference cases of `coreReducer`, as functions of the agent that the event names.
use roj.Base.{
  ℕ, ◌+◌, String, false, Option, none, some, List, [], ◌∷◌, ◌++◌, map, if◌then◌else◌, is_empty,
  get_or, or_zero, unless_empty,
}
use roj.Message.{ToolCall, LlmMessage, assistant}
use roj.Agent.{
  AgentState, AgentStatus, pending, inferring, tool_exec, errored, paused, InferenceCallRef,
  LlmMetrics,
}
use roj.Event.{InferenceStarted, LlmResponse}

-- `event.llmCallId !== undefined && event.inputKey !== undefined`
abbrev call_ref : Option String → Option String → Option InferenceCallRef
call_ref none _ = none
call_ref (some call) none = none
call_ref (some call) (some key) = some (record { llm_call_id = call; input_key = key })

from_llm_tool_call : ToolCall → ToolCall
from_llm_tool_call tc = record { id = tc.id; name = tc.name; input = tc.input }

unfoldable pub from_llm_tool_calls : List ToolCall → List ToolCall
unfolding from_llm_tool_call
from_llm_tool_calls calls = map from_llm_tool_call calls

-- The status that a finished step leaves, unless a pause landed meanwhile.
abbrev pub unless_paused : AgentStatus → AgentStatus → AgentStatus
unless_paused paused _ = paused
unless_paused _ next = next

unfoldable pub on_inference_started : InferenceStarted → AgentState → AgentState
on_inference_started e agent = record agent {
  status = inferring;
  pending_messages = agent.pending_messages ++ e.messages;
  inference_call = call_ref e.llm_call_id e.input_key;
  interrupted_inference = none;
  completion_handled = false;
}

unfoldable pub assistant_message : LlmResponse → LlmMessage
unfolding from_llm_tool_calls
assistant_message r = assistant (record {
  content = get_or r.content "";
  tool_calls = unless_empty (from_llm_tool_calls r.tool_calls);
  reasoning_details = r.reasoning_details;
  thinking_blocks = r.thinking_blocks;
  cache_control = none;
})

unfoldable pub on_inference_completed : LlmResponse → LlmMetrics → AgentState → AgentState
on_inference_completed r metrics agent = record agent {
  status =
      unless_paused agent.status
        (if is_empty (from_llm_tool_calls r.tool_calls) then pending else tool_exec);
  conversation_history =
      agent.conversation_history ++ (agent.pending_messages ++ (assistant_message r ∷ []));
  pending_tool_calls = from_llm_tool_calls r.tool_calls;
  pending_messages = [];
  pending_tool_results = [];
  last_inference_metrics = some metrics;
  consecutive_inference_failures = some 0;
  last_inference_failure_at = none;
  turn_number = some (or_zero agent.turn_number + 1);
  inference_call = none;
  completion_handled = false;
  interrupted_inference = none;
}

unfoldable pub on_inference_failed : ℕ → AgentState → AgentState
on_inference_failed timestamp agent = record agent {
  status = errored;
  pending_messages = [];
  inference_call = none;
  consecutive_inference_failures = some (or_zero agent.consecutive_inference_failures + 1);
  last_inference_failure_at = some timestamp;
}

unfoldable pub on_inference_retried : AgentState → AgentState
on_inference_retried agent = record agent {
  status = unless_paused agent.status pending;
  pending_messages = [];
  inference_call = none;
}
