-- ===== src/Runtime/Inference.antt =====
-- The second half of `runInference` of agent.ts: what becomes of the response, and the retries
-- that an `afterInference` hook asks for.
pub mod Marks
pub mod Steps
pub mod Commit
pub mod Bounds
use roj.Base.{
  ℕ, zero, suc, String, Bool, true, false, not, ◌&&◌, Option, none, some, List, [], ◌∷◌, ◌++◌,
  if◌then◌else◌, is_empty, get_or, ltb, Result, ok, err,
}
use roj.Agent.{AgentState}
use roj.Agent.Retry.{LlmError, LlmErrorKind, aborted, is_retryable_llm_error}
use roj.Event.{inference_failed, inference_retried}
use roj.Runtime.{
  Reply, InferenceResponse, HandlerResult, skip, modify_response, retry, pause, Trace, Runtime,
  emit,
}
use roj.Runtime.Hooks.{
  execute_before_inference, execute_after_inference, execute_on_error, emit_handler_pause,
}
use roj.Runtime.Dequeue.{Dequeued, collect_plugin_messages, consume_dequeued_tokens}
use roj.Runtime.Request.{
  build_llm_messages, status_message, handler_skip_metrics, sanitized, get_plugin_status,
  emit_inference_completed, Prepared, prepare, start_inference, ask,
}

abbrev pub max_inference_retries : ℕ
max_inference_retries = 3

abbrev pub is_aborted : LlmErrorKind → Bool
is_aborted aborted = true
is_aborted _ = false

module _ (r : Runtime) where
  abbrev state_or : AgentState → Trace → AgentState
  state_or a t = get_or (r.state t) a

  -- The response of a turn is recorded and what it answered is consumed, in this order.
  unfoldable pub commit : Reply → InferenceResponse → List Dequeued → Trace → Trace
  unfolding emit_inference_completed consume_dequeued_tokens
  commit reply v dequeued t =
      consume_dequeued_tokens r dequeued
        (emit_inference_completed r reply v.metrics v.reasoning_details v.thinking_blocks t)

  -- `errorState && !isRepeatRetryableFailure`
  abbrev pub notify_error : LlmError → Option AgentState → Trace → Trace
  notify_error e none t = t
  notify_error e (some a) t =
      if is_retryable_llm_error e && ltb 1 (get_or a.consecutive_inference_failures 1)
      then t
      else execute_on_error r t

  abbrev pub report : LlmError → Trace → Trace
  report e t =
      let now = emit (inference_failed r.id e.message) t in notify_error e (r.state now) now

  unfoldable pub fail : LlmError → List Dequeued → Trace → Trace
  unfolding is_retryable_llm_error consume_dequeued_tokens execute_on_error
  fail e dequeued t =
      if is_aborted e.kind
      then t
      else report e (if is_retryable_llm_error e then t else consume_dequeued_tokens r dequeued t)

  -- After `executeAfterInference`; `again` is the recursive call, absent at the limit.
  abbrev pub conclude_turn :
      Option (Trace → Trace)
      → InferenceResponse
      → List Dequeued
      → Trace × Option HandlerResult
      → Trace
  conclude_turn again v dequeued (t, some (pause reason)) =
      emit_handler_pause r reason (commit (sanitized v) v dequeued t)
  conclude_turn (some again) v dequeued (t, some retry) = again (emit (inference_retried r.id) t)
  conclude_turn again v dequeued (t, some (modify_response reply)) = commit reply v dequeued t
  conclude_turn again v dequeued (t, result) = commit (sanitized v) v dequeued t

  abbrev pub settle :
      Option (Trace → Trace) → List Dequeued → Trace × Result LlmError InferenceResponse → Trace
  settle again dequeued (t, err e) = fail e dequeued t
  settle again dequeued (t, ok v) = conclude_turn again v dequeued (execute_after_inference r t)

  -- From `inference_started` on.
  unfoldable pub attempt : Option (Trace → Trace) → Prepared → List Dequeued → Trace → Trace
  unfolding commit fail ask emit_handler_pause execute_after_inference
  attempt again p dequeued t =
      let started = start_inference r p t in
      let messages = build_llm_messages (state_or p.agent started) p.pending in
      settle again dequeued
        (ask r (messages ++ status_message (get_plugin_status r started)) p.replayed started)

  abbrev pub unless_skipped :
      Option (Trace → Trace) → AgentState → List Dequeued → Trace × Option HandlerResult → Trace
  unless_skipped again a dequeued (t, some (skip reply)) =
      emit_inference_completed r reply handler_skip_metrics none none t
  unless_skipped again a dequeued (t, some (pause reason)) = t
  unless_skipped again a dequeued (t, result) =
      attempt again (prepare r (state_or a t) dequeued t) dequeued t

  abbrev pub turn : Option (Trace → Trace) → AgentState → List Dequeued → Trace → Trace
  turn again a dequeued t =
      if is_empty a.pending_tool_results && is_empty dequeued
      then t
      else unless_skipped again a dequeued (execute_before_inference r t)

  abbrev pub if_there : Option AgentState → Trace → (AgentState → Trace) → Trace
  if_there none t go = t
  if_there (some a) t go = go a

  -- By the retries left: `MAX_INFERENCE_RETRIES - retryCount`.
  unfoldable pub run_inference : ℕ → AgentState → Trace → Trace
  unfolding attempt prepare collect_plugin_messages execute_before_inference
  run_inference zero a t = turn none a (collect_plugin_messages r t) t
  run_inference (suc left) a t =
      let again = λ (u : Trace). if_there (r.state u) u (λ fresh. run_inference left fresh u) in
      turn (some again) a (collect_plugin_messages r t) t
