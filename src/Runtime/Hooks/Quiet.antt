-- ===== src/Runtime/Hooks/Quiet.antt =====
-- Running hooks leaves alone whatever does not look at hooks.
use roj.Base.{
  false, ◌≡◌, refl, ap, ◌∙◌, String, Bool, Option, none, some, List, [], ◌∷◌, Option-cases, inl,
  inr,
}
use roj.Message.{Json}
use roj.Agent.{PauseReason, handler}
use roj.Event.{
  HandlerName, on_start, before_inference, after_inference, before_tool_call, after_tool_call,
  on_complete, on_error, on_pause, handler_completed, agent_paused,
}
use roj.Runtime.{
  Effect, emitted, ran, HandlerResult, modify_result, pause, Trace, Plugin, Runtime, emit,
}
use roj.Runtime.Hooks.{
  action_of, first_result, run_on_pause, emit_handler_completed, execute_on_pause,
  emit_handler_pause, pause_if, conclude, execute_before_inference, execute_after_inference,
  execute_before_tool_call, execute_after_tool_call, store_result, execute_on_error,
}

-- The effects that belong to hooks.
pub data IsHookEffect : Effect → Type 0 where
  ran_hook : (name : HandlerName) (plugin : String) → IsHookEffect (ran name plugin)
  hook_done :
      (id : String) (name : HandlerName) (result : Option Json)
      → IsHookEffect (emitted (handler_completed id name result))
  hook_paused :
      (id : String) (reason : PauseReason) (message : Option String) (resumes : Bool)
      → IsHookEffect (emitted (agent_paused id reason message resumes))

module _ {A : Type 0} (f : Trace → A)
    (quiet : (x : Effect) (t : Trace) → IsHookEffect x → f (x ∷ t) ≡ f t) where
  first_result_quiet :
      (name : HandlerName) (ps : List Plugin) (t : Trace) → f (first_result name ps t).0 ≡ f t
  unfolding first_result
  first_result_quiet name [] t = refl
  first_result_quiet name (p ∷ ps) t =
      let now = quiet (ran name p.name) t (ran_hook name p.name) in
      elim (Option-cases (p.hook name)) [
        | inl n ↦ rw (first_result, n) (first_result_quiet name ps t)
        | inr (hook, n) ↦ elim (Option-cases (action_of name (hook t))) [
          | inl m ↦ rw (first_result, n, m) (first_result_quiet name ps (ran name p.name ∷ t) ∙ now)
          | inr (result, m) ↦ rw (first_result, n, m) now
        ]
      ]

  run_on_pause_quiet : (ps : List Plugin) (t : Trace) → f (run_on_pause ps t) ≡ f t
  unfolding run_on_pause
  run_on_pause_quiet [] t = refl
  run_on_pause_quiet (p ∷ ps) t = elim (Option-cases (p.hook on_pause)) [
    | inl n ↦ rw (run_on_pause, n) (run_on_pause_quiet ps t)
    | inr (hook, n) ↦
        rw (run_on_pause, n)
          (run_on_pause_quiet ps (ran on_pause p.name ∷ t)
            ∙ quiet (ran on_pause p.name) t (ran_hook on_pause p.name))
  ]

  module _ (r : Runtime) where
    pub emit_handler_completed_quiet :
        (name : HandlerName) (result : Option HandlerResult) (t : Trace)
        → f (emit_handler_completed r name result t) ≡ f t
    emit_handler_completed_quiet name (some result) t = quiet _ t (hook_done _ _ _)
    emit_handler_completed_quiet on_start none t = quiet _ t (hook_done _ _ _)
    emit_handler_completed_quiet on_complete none t = quiet _ t (hook_done _ _ _)
    emit_handler_completed_quiet _ none t = refl

    pub emit_handler_pause_quiet :
        (message : Option String) (t : Trace) → f (emit_handler_pause r message t) ≡ f t
    unfolding emit_handler_pause
    emit_handler_pause_quiet message t =
        let now = emit (agent_paused r.id handler message false) t in
        let paused = quiet _ t (hook_paused r.id handler message false) in
        elim (Option-cases (r.state now)) [
          | inl n ↦ rw (execute_on_pause, n) paused
          | inr (a, n) ↦ rw (execute_on_pause, n) (run_on_pause_quiet r.plugins now ∙ paused)
        ]

    pause_if_quiet : (result : Option HandlerResult) (t : Trace) → f (pause_if r result t) ≡ f t
    pause_if_quiet none t = refl
    pause_if_quiet (some (pause reason)) t = emit_handler_pause_quiet reason t
    pause_if_quiet (some _) t = refl

    conclude_quiet :
        (name : HandlerName) (t : Trace) (result : Option HandlerResult)
        → f (conclude r name (t, result)).0 ≡ f t
    conclude_quiet after_inference t result = emit_handler_completed_quiet after_inference result t
    conclude_quiet name t result =
        pause_if_quiet result (emit_handler_completed r name result t)
        ∙ emit_handler_completed_quiet name result t

    executed_quiet :
        (name : HandlerName) (t : Trace)
        → f (conclude r name (first_result name r.plugins t)).0 ≡ f t
    executed_quiet name t =
        let (now, result) = first_result name r.plugins t in
        conclude_quiet name now result ∙ first_result_quiet name r.plugins t

    pub execute_before_inference_quiet : (t : Trace) → f (execute_before_inference r t).0 ≡ f t
    unfolding execute_before_inference
    execute_before_inference_quiet t = executed_quiet before_inference t

    pub execute_after_inference_quiet : (t : Trace) → f (execute_after_inference r t).0 ≡ f t
    unfolding execute_after_inference
    execute_after_inference_quiet t = executed_quiet after_inference t

    pub execute_before_tool_call_quiet : (t : Trace) → f (execute_before_tool_call r t).0 ≡ f t
    unfolding execute_before_tool_call
    execute_before_tool_call_quiet t = executed_quiet before_tool_call t

    pub execute_on_error_quiet : (t : Trace) → f (execute_on_error r t) ≡ f t
    unfolding execute_on_error
    execute_on_error_quiet t = executed_quiet on_error t

    store_result_first :
        (t : Trace) (result : Option HandlerResult) → (store_result r (t, result)).0 ≡ t
    store_result_first t none = refl
    store_result_first t (some (modify_result result)) = refl
    store_result_first t (some _) = refl

    pub execute_after_tool_call_quiet : (t : Trace) → f (execute_after_tool_call r t).0 ≡ f t
    unfolding execute_after_tool_call
    execute_after_tool_call_quiet t =
        let (now, result) = first_result after_tool_call r.plugins t in
        let (later, stored) = store_result r (now, result) in
        conclude_quiet after_tool_call later stored
        ∙ ap f (store_result_first now result)
        ∙ first_result_quiet after_tool_call r.plugins t
