-- ===== src/Runtime/Continue/ToolPhase.antt =====
-- The tool phase of an agent whose state is the replay of its events.
use roj.Base.{
  ℕ, ◌≡◌, refl, ap, ◌∙◌, ◌⊎◌, String, Bool, true, false, Option, none, some, List, ◌∷◌, eq_refl,
  Option-cases, Bool-cases, inl, inr,
}
use roj.Message.{ToolCall, Content, plain}
use roj.Agent.{AgentState}
use roj.Session.Tools.{without_call, on_tool_started, on_tool_done}
use roj.Session.Projection.{agent_after, updates}
use roj.Runtime.{executed, HandlerResult, block, replace, pause, ToolOutcome, Trace, Runtime}
use roj.Runtime.Hooks.{execute_before_tool_call, execute_after_tool_call}
use roj.Runtime.Hooks.Quiet.{execute_before_tool_call_quiet, execute_after_tool_call_quiet}
use roj.Runtime.ToolCalls.{
  start_tool, fail_tool, finish_tool, after_tool, run_tool, outcome_of, modified, unless_stopped,
  execute_tool_call,
}
use roj.Runtime.ToolCalls.Outcome.{Stopped, gone, paused}
use roj.Runtime.Replayed.{replay, calls_of, pending_quiet, calls_of-updates}

module _ (r : Runtime) (start : Option AgentState) where
  -- The calls that are pending after a trace.
  abbrev pub pending_calls : Trace → List ToolCall
  pending_calls t = calls_of (replay r.id r.clock start t)

  started_pending :
      (call : ToolCall) (t : Trace) → pending_calls (start_tool r call t) ≡ pending_calls t
  unfolding replay on_tool_started
  started_pending call t =
      calls_of-updates r.id r.id (on_tool_started call.id call.name (r.clock t))
        (replay r.id r.clock start t) (λ a. refl)

  done_pending :
      (id : String) (now : ℕ) (failed : Bool) (content : Content) (o : Option AgentState)
      → calls_of (agent_after (updates r.id (on_tool_done id now failed content)) r.id o)
        ≡ without_call id (calls_of o)
  unfolding on_tool_done
  done_pending id now failed content none = rw (agent_after, eq_refl r.id) refl
  done_pending id now failed content (some a) = rw (agent_after, eq_refl r.id) refl

  failed_pending :
      (call : ToolCall) (error : String) (t : Trace)
      → pending_calls (fail_tool r call error t) ≡ without_call call.id (pending_calls t)
  unfolding replay
  failed_pending call error t =
      done_pending call.id (r.clock t) true (plain error) (replay r.id r.clock start t)

  finished_pending :
      (call : ToolCall) (result : ToolOutcome) (t : Trace)
      → pending_calls (finish_tool r call result t) ≡ without_call call.id (pending_calls t)
  unfolding replay
  finished_pending call result t = elim (Bool-cases result.is_error) [
    | inl e ↦ rw (finish_tool, e) (failed_pending call _ t)
    | inr e ↦
        rw (finish_tool, e)
          (done_pending call.id (r.clock t) false result.content (replay r.id r.clock start t))
  ]

  after_tool_pending :
      (call : ToolCall) (result : ToolOutcome) (t : Trace)
      → pending_calls (after_tool r call result t) ≡ without_call call.id (pending_calls t)
  unfolding after_tool
  after_tool_pending call result t = elim (Option-cases (r.state t)) [
    | inl n ↦ rw (after_tool, n) (finished_pending call result t)
    | inr (a, n) ↦
        rw (after_tool, n)
          (finished_pending call (modified r result (execute_after_tool_call r t).1)
              (execute_after_tool_call r t).0
            ∙ ap (without_call call.id) (
                execute_after_tool_call_quiet pending_calls (pending_quiet r.id r.clock start) r t))
  ]

  run_tool_pending :
      (call : ToolCall) (t : Trace)
      → pending_calls (run_tool r call t) ≡ without_call call.id (pending_calls t)
  unfolding run_tool replay
  run_tool_pending call t =
      let begun_at = start_tool r call t in
      elim (Option-cases (r.find_tool begun_at call.name)) [
        | inl n ↦
            rw (run_tool, n)
              (failed_pending call _ begun_at ∙ ap (without_call call.id) (started_pending call t))
        | inr (tool, n) ↦
            let result = outcome_of r (tool call.input) in
            rw (run_tool, n)
              (after_tool_pending call result (executed call result ∷ begun_at)
                ∙ ap (without_call call.id) (started_pending call t))
      ]

  unless_stopped_pending :
      (call : ToolCall) (now : Trace) (result : Option HandlerResult)
      → ((reason : Option String) × (result ≡ some (pause reason)))
        ⊎ (pending_calls (unless_stopped r call (now, result))
            ≡ without_call call.id (pending_calls now))
  unless_stopped_pending call now (some (pause reason)) = inl (reason, refl)
  unless_stopped_pending call now (some (block reason)) = inr (
      failed_pending call _ (start_tool r call now)
      ∙ ap (without_call call.id) (started_pending call now))
  unless_stopped_pending call now (some (replace new)) =
      inr (run_tool_pending (record { id = call.id; name = new.name; input = new.input }) now)
  unless_stopped_pending call now result = inr (run_tool_pending call now)

  pub execute_tool_call_pending :
      (call : ToolCall) (t : Trace)
      → Stopped r t
        ⊎ (pending_calls (execute_tool_call r call t) ≡ without_call call.id (pending_calls t))
  unfolding execute_tool_call
  execute_tool_call_pending call t = elim (Option-cases (r.state t)) [
    | inl n ↦ inl (gone n)
    | inr (a, n) ↦
        let (now, result) = execute_before_tool_call r t in
        let same =
          execute_before_tool_call_quiet pending_calls (pending_quiet r.id r.clock start) r t in
        elim (unless_stopped_pending call now result) [
          | inl (reason, e) ↦ inl (paused reason e)
          | inr e ↦ inr (rw (execute_tool_call, n) (e ∙ ap (without_call call.id) same))
        ]
  ]
