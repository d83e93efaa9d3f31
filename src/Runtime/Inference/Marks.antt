-- ===== src/Runtime/Inference/Marks.antt =====
-- The effects of a turn itself, and how a turn may add to them.
use roj.Base.{
  ℕ, suc, ◌≡◌, refl, String, true, false, ◌&&◌, ◌++◌, is_empty, get_or, Result, ok, err, Option,
  none, some, List, [], ◌∷◌,
}
use roj.Agent.{AgentState}
use roj.Event.{
  EventBody, inference_started, inference_completed, inference_failed, inference_retried,
  agent_input_consumed,
}
use roj.Runtime.{
  scheduled, retry_armed, Effect, emitted, ran, consumed, requested, executed, Trace, Runtime,
  Reply, InferenceResponse, skip, retry, pause,
}
use roj.Runtime.Hooks.Quiet.{IsHookEffect, ran_hook, hook_done, hook_paused}
use roj.Runtime.Dequeue.{Dequeued, collect_plugin_messages}
use roj.Agent.Retry.{LlmError, is_retryable_llm_error}
use roj.Runtime.Hooks.{execute_before_inference, execute_after_inference}
use roj.Runtime.Request.{
  build_llm_messages, status_message, get_plugin_status, prepare, start_inference, ask,
}
use roj.Runtime.Inference.{is_aborted}

-- The effects that belong to the turn itself.
pub data Mark : Type 0 where
  started completed failed retried noted : Mark
  took : (plugin token : String) → Mark

abbrev pub mark_of : EventBody → List Mark → List Mark
mark_of (inference_started x) ms = started ∷ ms
mark_of (inference_completed id x m) ms = completed ∷ ms
mark_of (inference_failed id e) ms = failed ∷ ms
mark_of (inference_retried id) ms = retried ∷ ms
mark_of (agent_input_consumed id plugins) ms = noted ∷ ms
mark_of _ ms = ms

unfoldable pub marks : Trace → List Mark
marks [] = []
marks (emitted body ∷ t) = mark_of body (marks t)
marks (consumed plugin token ∷ t) = took plugin token ∷ marks t
marks (ran name plugin ∷ t) = marks t
marks (requested messages ∷ t) = marks t
marks (executed call result ∷ t) = marks t
marks (scheduled ∷ t) = marks t
marks (retry_armed delay ∷ t) = marks t

pub marks_quiet : (x : Effect) (t : Trace) → IsHookEffect x → marks (x ∷ t) ≡ marks t
unfolding marks
marks_quiet _ t (ran_hook name plugin) = refl
marks_quiet _ t (hook_done id name result) = refl
marks_quiet _ t (hook_paused id reason message resumes) = refl

-- The tokens of a turn taken, in the order in which they were offered, then the note of it.
abbrev pub take_tokens : List Dequeued → List Mark → List Mark
take_tokens [] ms = ms
take_tokens (d ∷ ds) ms = take_tokens ds (took d.plugin d.token ∷ ms)

abbrev pub take_noted : List Dequeued → List Mark → List Mark
take_noted [] ms = ms
take_noted (d ∷ ds) ms = noted ∷ take_tokens (d ∷ ds) ms

-- Nothing is taken when the agent is gone.
abbrev pub taken : Option AgentState → List Dequeued → List Mark → List Mark
taken none ds ms = ms
taken (some a) ds ms = take_noted ds ms

-- The answer to the inference of a turn that begins at `t`, and the trace then: the prompt holds
-- what was offered at `t`, before the hooks of the turn.
abbrev pub answered : Runtime → AgentState → Trace → Trace × Result LlmError InferenceResponse
answered r a t =
    let before = (execute_before_inference r t).0 in
    let p = prepare r (get_or (r.state before) a) (collect_plugin_messages r t) before in
    let started_at = start_inference r p before in
    let messages = build_llm_messages (get_or (r.state started_at) p.agent) p.pending in
    ask r (messages ++ status_message (get_plugin_status r started_at)) p.replayed started_at

-- The marks after a turn that begins at the trace `t` with `n` retries left, for an agent that may
-- be gone. What it takes is what was offered at `t`.
pub data Turn (r : Runtime) : ℕ → Option AgentState → Trace → List Mark → Type 0 where
  gone : (n : ℕ) (t : Trace) → Turn r n none t (marks t)
  nothing_new :
      (n : ℕ) (a : AgentState) (t : Trace)
      → (is_empty a.pending_tool_results && is_empty (collect_plugin_messages r t)) ≡ true
      → Turn r n (some a) t (marks t)
  held :
      (n : ℕ) (a : AgentState) (t : Trace) (reason : Option String)
      → (execute_before_inference r t).1 ≡ some (pause reason)
      → Turn r n (some a) t (marks t)
  skipped :
      (n : ℕ) (a : AgentState) (t : Trace) (reply : Reply)
      → (execute_before_inference r t).1 ≡ some (skip reply)
      → Turn r n (some a) t (completed ∷ marks t)
  abandoned :
      (n : ℕ) (a : AgentState) (t : Trace) (e : LlmError)
      → (answered r a t).1 ≡ err e
      → is_aborted e.kind ≡ true
      → Turn r n (some a) t (started ∷ marks t)
  kept :
      (n : ℕ) (a : AgentState) (t : Trace) (e : LlmError)
      → (answered r a t).1 ≡ err e
      → is_retryable_llm_error e ≡ true
      → Turn r n (some a) t (failed ∷ started ∷ marks t)
  dropped :
      (n : ℕ) (a : AgentState) (t now : Trace) (e : LlmError)
      → (answered r a t).1 ≡ err e
      → is_retryable_llm_error e ≡ false
      → marks now ≡ started ∷ marks t
      → Turn r n (some a) t (failed ∷ taken (r.state now) (collect_plugin_messages r t) (marks now))
  committed :
      (n : ℕ) (a : AgentState) (t now : Trace) (v : InferenceResponse)
      → (answered r a t).1 ≡ ok v
      → marks now ≡ completed ∷ started ∷ marks t
      → Turn r n (some a) t (taken (r.state now) (collect_plugin_messages r t) (marks now))
  again :
      (n : ℕ) (a : AgentState) (t now : Trace) (v : InferenceResponse) (rest : List Mark)
      → (answered r a t).1 ≡ ok v
      → (execute_after_inference r (answered r a t).0).1 ≡ some retry
      → marks now ≡ retried ∷ started ∷ marks t
      → Turn r n (r.state now) now rest
      → Turn r (suc n) (some a) t rest
