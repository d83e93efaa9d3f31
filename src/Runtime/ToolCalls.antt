-- ===== src/Runtime/ToolCalls.antt =====
-- `executeToolCall` of agent.ts.
pub mod Outcome
use Prim.Native.Char.{code}
use roj.Base.{
  String, Bool, true, false, Option, none, some, List, [], ◌∷◌, if◌then◌else◌, ◌==◌, ◌+ₛ◌, Result,
  ok, err,
}
use roj.Message.{Content, plain, items, ToolCall, Json}
use roj.Event.{ToolDone, tool_started, tool_completed, tool_failed}
use roj.Runtime.{
  HandlerResult, block, replace, modify_result, pause, ToolOutcome, Effect, executed, Trace,
  Runtime, emit,
}
use roj.Runtime.Hooks.{execute_before_tool_call, execute_after_tool_call}

-- A value that is an object has a text that opens with `{`.
abbrev is_record : Json → Bool
is_record String.[] = false
is_record (String.◌∷◌ c s) = code c == b'{'

abbrev pub to_input_record : Json → Json
to_input_record input = if is_record input then input else "{}"

module _ (r : Runtime) where
  abbrev done : ToolCall → ToolDone
  done call = record {
    agent_id = r.id;
    tool_call_id = call.id;
    workspace_ref = none;
    session_ref = none;
  }

  abbrev pub start_tool : ToolCall → Trace → Trace
  start_tool call t = emit (tool_started r.id call.id call.name (to_input_record call.input)) t

  abbrev pub fail_tool : ToolCall → String → Trace → Trace
  fail_tool call error t = emit (tool_failed (done call) error) t

  abbrev error_text : Content → String
  error_text (plain text) = text
  error_text (items content) = r.content_json content

  abbrev pub finish_tool : ToolCall → ToolOutcome → Trace → Trace
  finish_tool call result t =
      if result.is_error
      then fail_tool call (error_text result.content) t
      else emit (tool_completed (done call) result.content) t

  abbrev pub outcome_of : Result String Content → ToolOutcome
  outcome_of (ok content) = record { is_error = false; content = r.stored_content content }
  outcome_of (err message) = record { is_error = true; content = plain message }

  abbrev pub modified : ToolOutcome → Option HandlerResult → ToolOutcome
  modified result (some (modify_result new)) = new
  modified result _ = result

  -- After the tool has run: its hook, unless the agent is gone, and the event of the result.
  unfoldable pub after_tool : ToolCall → ToolOutcome → Trace → Trace
  unfolding execute_after_tool_call
  after_tool call result t = elim (r.state t) [
    | none ↦ finish_tool call result t
    | some a ↦
        let (now, answer) = execute_after_tool_call r t in
        finish_tool call (modified result answer) now
  ]

  unfoldable pub run_tool : ToolCall → Trace → Trace
  unfolding after_tool
  run_tool call t =
      let started = start_tool call t in
      elim (r.find_tool started call.name) [
        | none ↦ fail_tool call ("Unknown tool: " +ₛ call.name) started
        | some tool ↦
            let result = outcome_of (tool call.input) in
            after_tool call result (executed call result ∷ started)
      ]

  abbrev pub unless_stopped : ToolCall → Trace × Option HandlerResult → Trace
  unless_stopped call (t, some (pause reason)) = t
  unless_stopped call (t, some (block reason)) =
      fail_tool call ("Tool blocked by handler: " +ₛ reason) (start_tool call t)
  unless_stopped call (t, some (replace new)) =
      run_tool (record { id = call.id; name = new.name; input = new.input }) t
  unless_stopped call (t, _) = run_tool call t

  unfoldable pub execute_tool_call : ToolCall → Trace → Trace
  unfolding execute_before_tool_call run_tool
  execute_tool_call call t = elim (r.state t) [
    | none ↦ t
    | some a ↦ unless_stopped call (execute_before_tool_call r t)
  ]
