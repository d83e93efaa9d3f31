-- ===== src/Session/Tools.antt =====
-- The tool cases of `coreReducer`, as functions of the agent that the event names.
use roj.Base.{
  ℕ, String, Bool, not, Option, none, some, List, [], ◌∷◌, ◌++◌, if◌then◌else◌, ◌=ₛ◌, keep,
  is_empty,
}
use roj.Message.{ToolCall, Content}
use roj.Agent.{AgentState, pending, tool_exec, PendingToolResult, ExecutingToolCall}
use roj.Session.Turn.{unless_paused}

-- `pendingToolCalls.filter((tc) => tc.id !== toolCallId)`
abbrev pub without_call : String → List ToolCall → List ToolCall
without_call id = keep (λ tc. not (tc.id =ₛ id))

unfoldable pub find_call : String → List ToolCall → Option ToolCall
find_call id [] = none
find_call id (tc ∷ tcs) = if tc.id =ₛ id then some tc else find_call id tcs

abbrev name_or_unknown : Option ToolCall → String
name_or_unknown none = "unknown"
name_or_unknown (some tc) = tc.name

-- The running call's name, else the name of the pending call with the id.
unfoldable pub tool_name_of : Option ExecutingToolCall → String → List ToolCall → String
unfolding find_call
tool_name_of none id calls = name_or_unknown (find_call id calls)
tool_name_of (some running) id calls = running.tool_name

unfoldable pub tool_result : String → ℕ → Bool → Content → AgentState → PendingToolResult
tool_result id timestamp is_error content agent = record {
  tool_call_id = id;
  tool_name = tool_name_of agent.executing_tool_call id agent.pending_tool_calls;
  timestamp = timestamp;
  is_error = is_error;
  content = content;
}

-- `tool_completed` with `false`, `tool_failed` with `true`.
unfoldable pub on_tool_done : String → ℕ → Bool → Content → AgentState → AgentState
on_tool_done id timestamp is_error content agent = record agent {
  pending_tool_calls = without_call id agent.pending_tool_calls;
  pending_tool_results =
      agent.pending_tool_results ++ (tool_result id timestamp is_error content agent ∷ []);
  status =
      unless_paused agent.status
        (if is_empty (without_call id agent.pending_tool_calls) then pending else tool_exec);
  executing_tool_call = none;
}

unfoldable pub on_tool_started : String → String → ℕ → AgentState → AgentState
on_tool_started id name timestamp agent = record agent {
  executing_tool_call =
      some (record { tool_call_id = id; tool_name = name; started_at = timestamp });
}
