-- ===== src/Runtime/ToolCalls/Outcome.antt =====
-- Every call of a tool has its result event.
use roj.Base.{
  subst, ◌≡◌, refl, sym, ap, ◌∙◌, ◌⊎◌, String, Option, none, some, List, [], ◌∷◌, Option-cases,
  Bool-cases, inl, inr,
}
use roj.Message.{ToolCall}
use roj.Event.{EventBody, tool_started, tool_completed, tool_failed}
use roj.Runtime.{
  Effect, emitted, executed, HandlerResult, block, replace, pause, ToolOutcome, Trace, Runtime,
}
use roj.Runtime.Hooks.{execute_before_tool_call, execute_after_tool_call}
use roj.Runtime.Hooks.Quiet.{
  IsHookEffect, ran_hook, hook_done, hook_paused, execute_before_tool_call_quiet,
  execute_after_tool_call_quiet,
}
use roj.Runtime.ToolCalls.{
  start_tool, finish_tool, after_tool, run_tool, outcome_of, modified, unless_stopped,
  execute_tool_call,
}

pub data ToolMark : Type 0 where
  begun ended ran_tool : (id : String) → ToolMark

abbrev pub tool_mark_of : EventBody → List ToolMark → List ToolMark
tool_mark_of (tool_started agent id name input) ms = begun id ∷ ms
tool_mark_of (tool_completed d result) ms = ended d.tool_call_id ∷ ms
tool_mark_of (tool_failed d error) ms = ended d.tool_call_id ∷ ms
tool_mark_of _ ms = ms

-- The events of tools, and the executions.
unfoldable pub tool_marks : Trace → List ToolMark
tool_marks [] = []
tool_marks (emitted body ∷ t) = tool_mark_of body (tool_marks t)
tool_marks (executed call result ∷ t) = ran_tool call.id ∷ tool_marks t
tool_marks (_ ∷ t) = tool_marks t

tool_marks_quiet : (x : Effect) (t : Trace) → IsHookEffect x → tool_marks (x ∷ t) ≡ tool_marks t
unfolding tool_marks
tool_marks_quiet _ t (ran_hook name plugin) = refl
tool_marks_quiet _ t (hook_done id name result) = refl
tool_marks_quiet _ t (hook_paused id reason message resumes) = refl

-- A call that is refused, or names no tool, and one that is executed once.
pub data Handled (id : String) : List ToolMark → List ToolMark → Type 0 where
  refused : (ms : List ToolMark) → Handled id ms (ended id ∷ begun id ∷ ms)
  done : (ms : List ToolMark) → Handled id ms (ended id ∷ ran_tool id ∷ begun id ∷ ms)

-- The reasons for which nothing happens: the agent is gone, or a hook paused it.
pub data Stopped (r : Runtime) (t : Trace) : Type 0 where
  gone : r.state t ≡ none → Stopped r t
  paused :
      (reason : Option String)
      → (execute_before_tool_call r t).1 ≡ some (pause reason)
      → Stopped r t

module _ (r : Runtime) where
  finish_tool_lem :
      (call : ToolCall) (result : ToolOutcome) (t : Trace)
      → tool_marks (finish_tool r call result t) ≡ ended call.id ∷ tool_marks t
  unfolding tool_marks
  finish_tool_lem call result t = elim (Bool-cases result.is_error) [
    | inl e ↦ rw (finish_tool, e) refl
    | inr e ↦ rw (finish_tool, e) refl
  ]

  after_tool_lem :
      (call : ToolCall) (result : ToolOutcome) (t : Trace)
      → tool_marks (after_tool r call result t) ≡ ended call.id ∷ tool_marks t
  unfolding after_tool
  after_tool_lem call result t = elim (Option-cases (r.state t)) [
    | inl n ↦ rw (after_tool, n) (finish_tool_lem call result t)
    | inr (a, n) ↦
        rw (after_tool, n)
          (finish_tool_lem call (modified r result (execute_after_tool_call r t).1)
              (execute_after_tool_call r t).0
            ∙ ap (λ l. ended call.id ∷ l)
                (execute_after_tool_call_quiet tool_marks tool_marks_quiet r t))
  ]

  run_tool-Handled :
      (call : ToolCall) (t : Trace)
      → Handled call.id (tool_marks t) (tool_marks (run_tool r call t))
  unfolding run_tool tool_marks
  run_tool-Handled call t =
      let begun_at = start_tool r call t in
      elim (Option-cases (r.find_tool begun_at call.name)) [
        | inl n ↦ rw (run_tool, n) (refused (tool_marks t))
        | inr (tool, n) ↦
            let result = outcome_of r (tool call.input) in
            rw (run_tool, n, after_tool_lem call result (executed call result ∷ begun_at))
              (done (tool_marks t))
      ]

  unless_stopped-Handled :
      (call : ToolCall) (now : Trace) (result : Option HandlerResult)
      → ((reason : Option String) × (result ≡ some (pause reason))
          × (unless_stopped r call (now, result) ≡ now))
        ⊎ Handled call.id (tool_marks now) (tool_marks (unless_stopped r call (now, result)))
  unfolding tool_marks
  unless_stopped-Handled call now (some (pause reason)) = inl (reason, refl, refl)
  unless_stopped-Handled call now (some (block reason)) = inr (refused (tool_marks now))
  unless_stopped-Handled call now (some (replace new)) =
      inr (run_tool-Handled (record { id = call.id; name = new.name; input = new.input }) now)
  unless_stopped-Handled call now result = inr (run_tool-Handled call now)

-- A tool call is answered by exactly one result event under its own id, after one start event
-- under that id and at most one execution, whether a hook blocks it, replaces it or changes the
-- result, the tool does not exist, or it fails. The exceptions: the agent is gone, or a hook
-- paused the agent before the call; then no tool event is emitted.
pub execute_tool_call-Handled :
    (r : Runtime) (call : ToolCall) (t : Trace)
    → (Stopped r t × (tool_marks (execute_tool_call r call t) ≡ tool_marks t))
      ⊎ Handled call.id (tool_marks t) (tool_marks (execute_tool_call r call t))
unfolding execute_tool_call
execute_tool_call-Handled r call t =
    let quiet = execute_before_tool_call_quiet tool_marks tool_marks_quiet r t in
    elim (Option-cases (r.state t)) [
      | inl n ↦ rw (execute_tool_call, n) (inl (gone n, refl))
      | inr (a, n) ↦ rw (execute_tool_call, n) (go (execute_before_tool_call r t) refl quiet)
    ]
  where
    go :
        (x : Trace × Option HandlerResult)
        → x.1 ≡ (execute_before_tool_call r t).1
        → tool_marks x.0 ≡ tool_marks t
        → (Stopped r t × (tool_marks (unless_stopped r call x) ≡ tool_marks t))
          ⊎ Handled call.id (tool_marks t) (tool_marks (unless_stopped r call x))
    go (now, result) same quiet = elim (unless_stopped-Handled r call now result) [
      | inl (reason, e, stays) ↦ inl (paused reason (sym same ∙ e), ap tool_marks stays ∙ quiet)
      | inr h ↦ inr (
          subst (λ l. Handled call.id l (tool_marks (unless_stopped r call (now, result)))) quiet h)
    ]
