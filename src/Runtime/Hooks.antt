-- ===== src/Runtime/Hooks.antt =====
-- The hooks of agent.ts: `executeOnStart` to `executeOnPause`, `emitHandlerCompleted` and
-- `emitHandlerPause`.
pub mod Quiet
pub mod Isolation
pub mod Keeps
use roj.Base.{Bool, true, false, Option, none, some, List, [], ◌∷◌, if◌then◌else◌, String}
use roj.Message.{Json}
use roj.Agent.{handler}
use roj.Event.{
  HandlerName, on_start, before_inference, after_inference, before_tool_call, after_tool_call,
  on_complete, on_error, on_pause, handler_completed, agent_paused,
}
use roj.Runtime.{
  HandlerResult, skip, modify_response, retry, block, replace, modify_result, pause, HookOutcome,
  raised, returned, Effect, ran, Trace, Plugin, Runtime, emit, ToolOutcome,
}

-- The results that the switch after a hook knows; any other makes it throw.
abbrev pub handles : HandlerName → HandlerResult → Bool
handles before_inference (skip response) = true
handles after_inference (modify_response response) = true
handles after_inference retry = true
handles before_tool_call (block reason) = true
handles before_tool_call (replace call) = true
handles after_tool_call (modify_result result) = true
handles _ (pause reason) = true
handles _ _ = false

abbrev pub action_of : HandlerName → HookOutcome → Option HandlerResult
action_of name raised = none
action_of name (returned none) = none
action_of name (returned (some result)) = if handles name result then some result else none

-- The loop over the plugins: the first result wins; one that throws is passed over.
unfoldable pub first_result : HandlerName → List Plugin → Trace → Trace × Option HandlerResult
first_result name [] t = (t, none)
first_result name (p ∷ ps) t = elim (p.hook name) [
  | none ↦ first_result name ps t
  | some hook ↦ elim (action_of name (hook t)) [
    | none ↦ first_result name ps (ran name p.name ∷ t)
    | some result ↦ (ran name p.name ∷ t, some result)
  ]
]

abbrev pub pause_of : HookOutcome → Option HandlerResult
pause_of (returned (some (pause reason))) = some (pause reason)
pause_of _ = none

abbrev pub keep_first : Option HandlerResult → Option HandlerResult → Option HandlerResult
keep_first none new = new
keep_first (some old) new = some old

-- `executeOnStart`'s loop: every hook runs, the first pause is recorded.
unfoldable pub first_pause :
    List Plugin → Option HandlerResult → Trace → Trace × Option HandlerResult
first_pause [] found t = (t, found)
first_pause (p ∷ ps) found t = elim (p.hook on_start) [
  | none ↦ first_pause ps found t
  | some hook ↦ first_pause ps (keep_first found (pause_of (hook t))) (ran on_start p.name ∷ t)
]

-- `executeOnPause`'s loop.
unfoldable pub run_on_pause : List Plugin → Trace → Trace
run_on_pause [] t = t
run_on_pause (p ∷ ps) t = elim (p.hook on_pause) [
  | none ↦ run_on_pause ps t
  | some hook ↦ run_on_pause ps (ran on_pause p.name ∷ t)
]

module _ (r : Runtime) where
  abbrev pub emit_handler_completed : HandlerName → Option HandlerResult → Trace → Trace
  emit_handler_completed name (some result) t =
      emit (handler_completed r.id name (some (r.result_json result))) t
  emit_handler_completed on_start none t = emit (handler_completed r.id on_start none) t
  emit_handler_completed on_complete none t = emit (handler_completed r.id on_complete none) t
  emit_handler_completed _ none t = t

  unfoldable pub execute_on_pause : Trace → Trace
  execute_on_pause t = elim (r.state t) [
    | none ↦ t
    | some a ↦ emit_handler_completed on_pause none (run_on_pause r.plugins t)
  ]

  unfoldable pub emit_handler_pause : Option String → Trace → Trace
  unfolding execute_on_pause
  emit_handler_pause message t = execute_on_pause (emit (agent_paused r.id handler message false) t)

  abbrev pub pause_if : Option HandlerResult → Trace → Trace
  pause_if (some (pause reason)) t = emit_handler_pause reason t
  pause_if _ t = t

  -- What the hooks of one kind do, all but `onStart` and `onPause`; `executeAfterInference`
  -- leaves the pause to its caller.
  abbrev pub conclude : HandlerName → Trace × Option HandlerResult → Trace × Option HandlerResult
  conclude after_inference (t, result) = (emit_handler_completed after_inference result t, result)
  conclude name (t, result) = (pause_if result (emit_handler_completed name result t), result)

  abbrev execute : HandlerName → Trace → Trace × Option HandlerResult
  execute name t = conclude name (first_result name r.plugins t)

  unfoldable pub execute_before_inference : Trace → Trace × Option HandlerResult
  unfolding first_result emit_handler_pause
  execute_before_inference t = execute before_inference t

  unfoldable pub execute_after_inference : Trace → Trace × Option HandlerResult
  unfolding first_result
  execute_after_inference t = execute after_inference t

  unfoldable pub execute_before_tool_call : Trace → Trace × Option HandlerResult
  unfolding first_result emit_handler_pause
  execute_before_tool_call t = execute before_tool_call t

  -- The content of a modified result goes to the session store before it is recorded.
  abbrev pub store_result : Trace × Option HandlerResult → Trace × Option HandlerResult
  store_result (t, some (modify_result result)) =
      (t, some (modify_result (record result { content = r.stored_content result.content })))
  store_result (t, result) = (t, result)

  unfoldable pub execute_after_tool_call : Trace → Trace × Option HandlerResult
  unfolding first_result emit_handler_pause
  execute_after_tool_call t =
      conclude after_tool_call (store_result (first_result after_tool_call r.plugins t))

  unfoldable pub execute_on_complete : Trace → Trace
  unfolding first_result emit_handler_pause
  execute_on_complete t = (execute on_complete t).0

  unfoldable pub execute_on_error : Trace → Trace
  unfolding first_result emit_handler_pause
  execute_on_error t = (execute on_error t).0

  unfoldable pub execute_on_start : Trace → Trace × Option HandlerResult
  unfolding first_pause emit_handler_pause
  execute_on_start t =
      let (now, found) = first_pause r.plugins none t in
      (pause_if found (emit_handler_completed on_start found now), found)
