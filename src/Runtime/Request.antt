-- ===== src/Runtime/Request.antt =====
-- The first half of `runInference` of agent.ts, up to the response, with `buildPendingMessages`, `buildLLMMessages`,
-- `readInterruptedResponse`, `inferenceInputKey`, `getPluginStatus` and `emitInferenceCompleted`.
-- Cache marks, the ids of log rows in later events and the request's prompt, tools and model are
-- left out: a request is its messages.

pub mod Answer
use roj.Base.{
  is_some, ℕ, zero, suc, String, Bool, true, false, not, ◌&&◌, ◌||◌, Option, none, some, List, [],
  ◌∷◌, ◌++◌, map, if◌then◌else◌, is_empty, get_or, ltb, ◌=ₛ◌, ◌+ₛ◌, Result, ok, err,
}
use roj.Message.{Json, LlmMessage, user, tool, plain}
use roj.Agent.{AgentState, LlmMetrics, PendingToolResult, InferenceCallRef}
use roj.Agent.Loop.{has_work}
use roj.Agent.Retry.{LlmError, LlmErrorKind, aborted, is_retryable_llm_error}
use roj.Event.{
  LlmResponse, InferenceStarted, inference_started, inference_completed, inference_failed,
  inference_retried,
}
use roj.Sanitize.{is_blank, non_empty, sanitize_llm_response}
use roj.Runtime.{
  Reply, InferenceResponse, FinishReason, stop, HandlerResult, skip, modify_response, retry, pause,
  Effect, requested, Trace, Plugin, Runtime, emit,
}
use roj.Runtime.Hooks.{
  execute_before_inference, execute_after_inference, execute_on_error, emit_handler_pause,
}
use roj.Runtime.Dequeue.{Dequeued, collect_plugin_messages, consume_dequeued_tokens}

abbrev pub max_empty_response_retries : ℕ
max_empty_response_retries = 2

abbrev pub tool_message : PendingToolResult → LlmMessage
tool_message p = tool (record {
  content = p.content;
  tool_call_id = p.tool_call_id;
  tool_name = some p.tool_name;
  is_error = some p.is_error;
  timestamp = some p.timestamp;
  cache_control = none;
})

abbrev pub build_pending_messages : AgentState → List LlmMessage
build_pending_messages a = map tool_message a.pending_tool_results

abbrev pub build_llm_messages : AgentState → List LlmMessage → List LlmMessage
build_llm_messages a pending = a.preamble ++ (a.conversation_history ++ pending)

abbrev pub user_text : String → LlmMessage
user_text text =
    user (record { content = plain text; source_message_ids = none; cache_control = none })

abbrev pub nudge : LlmMessage
nudge = user_text (
    "<system-nudge>Your previous response was empty (no text and no tool calls). "
    +ₛ "Either produce a meaningful response — text or tool calls — or, if you "
    +ₛ "have nothing to do, output only the word WAITING on its own line per the "
    +ₛ "waiting protocol.</system-nudge>")

abbrev pub has_content : Option String → Bool
has_content none = false
has_content (some s) = not (is_blank s)

abbrev pub is_stop : FinishReason → Bool
is_stop stop = true
is_stop _ = false

unfoldable pub is_empty_stop : InferenceResponse → Bool
unfolding is_blank
is_empty_stop v = not (has_content v.content) && is_empty v.tool_calls && is_stop v.finish_reason

abbrev pub status_texts : List Plugin → Trace → List String
status_texts [] t = []
status_texts (p ∷ ps) t =
    let rest = status_texts ps t in
    elim p.get_status [
      | none ↦ rest
      | some get ↦ elim (get t) [ none ↦ rest | some s ↦ if s =ₛ "" then rest else s ∷ rest ]
    ]

abbrev join_blank_line : String → List String → String
join_blank_line s [] = s
join_blank_line s (u ∷ us) = s +ₛ "\n\n" +ₛ join_blank_line u us

abbrev pub status_message : List String → List LlmMessage
status_message [] = []
status_message (s ∷ ss) =
    user_text ("<session-context>\n" +ₛ join_blank_line s ss +ₛ "\n</session-context>") ∷ []

abbrev pub handler_skip_metrics : LlmMetrics
handler_skip_metrics = record {
  prompt_tokens = 0;
  completion_tokens = 0;
  total_tokens = 0;
  latency_ms = 0;
  model = "handler-skip";
  provider = none;
  cost = none;
  cached_tokens = none;
  cache_write_tokens = none;
}

abbrev pub concat_messages : List Dequeued → List LlmMessage
concat_messages [] = []
concat_messages (d ∷ ds) = d.messages ++ concat_messages ds

-- The response as the sanitizer leaves it.
abbrev pub sanitized : InferenceResponse → Reply
sanitized v = record {
  content = (sanitize_llm_response v.content).content;
  tool_calls = v.tool_calls;
}

-- What the first steps of a turn settle before `inference_started`.
pub record Prepared : Type 0 where
  pub agent : AgentState
  pub pending : List LlmMessage
  pub input_key : String
  pub replayed : Option InferenceResponse
  pub retried : Bool
  pub first_call_id : Option String

module _ (r : Runtime) where
  unfoldable pub inference_input_key : AgentState → List Dequeued → String
  inference_input_key a dequeued =
      r.input_key_json (map (λ (p : PendingToolResult). p.tool_call_id) a.pending_tool_results)
        (map (λ (d : Dequeued). (d.plugin, d.token)) dequeued)

  abbrev pub get_plugin_status : Trace → List String
  get_plugin_status t = elim (r.state t) [ none ↦ [] | some a ↦ status_texts r.plugins t ]

  unfoldable pub read_interrupted_response :
      Option InferenceCallRef → String → Trace → Option InferenceResponse
  read_interrupted_response none key t = none
  read_interrupted_response (some call) key t = elim r.logged_response [
    | none ↦ none
    | some logged ↦ if call.input_key =ₛ key then logged t call.llm_call_id else none
  ]

  unfoldable pub emit_inference_completed :
      Reply → LlmMetrics → Option (List Json) → Option (List Json) → Trace → Trace
  emit_inference_completed reply metrics reasoning_details thinking_blocks t =
      emit
        (inference_completed r.id
          (record {
            content = reply.content;
            tool_calls = reply.tool_calls;
            reasoning_details = reasoning_details;
            thinking_blocks = thinking_blocks;
          })
          metrics)
        t

  abbrev call_id_of : Option InferenceCallRef → Option String
  call_id_of none = none
  call_id_of (some call) = some call.llm_call_id

  abbrev pub first_call_id_of : AgentState → Option InferenceResponse → Trace → Option String
  first_call_id_of a (some response) t = call_id_of a.interrupted_inference
  first_call_id_of a none t = elim r.logged_response [
    | none ↦ none
    | some logged ↦ some (r.generate_llm_call_id t)
  ]

  unfoldable pub prepare : AgentState → List Dequeued → Trace → Prepared
  unfolding inference_input_key read_interrupted_response
  prepare a dequeued t =
      let key = inference_input_key a dequeued in
      let replayed = read_interrupted_response a.interrupted_inference key t in
      record {
        agent = a;
        pending = map r.stored_message (build_pending_messages a ++ concat_messages dequeued);
        input_key = key;
        replayed = replayed;
        retried = is_some a.interrupted_inference && not (is_some replayed);
        first_call_id = first_call_id_of a replayed t;
      }

  abbrev pub key_if : Option String → String → Option String
  key_if none key = none
  key_if (some call) key = some key

  abbrev pub start_inference : Prepared → Trace → Trace
  start_inference p t =
      emit
        (inference_started (record {
          agent_id = r.id;
          messages = p.pending;
          llm_call_id = p.first_call_id;
          input_key = key_if p.first_call_id p.input_key;
          retried = p.retried;
        }))
        t

  -- One answer: the loop goes on only after an empty stop.
  abbrev pub after_answer :
      ℕ
      → Result LlmError InferenceResponse
      → (ℕ → Trace → Trace × Result LlmError InferenceResponse)
      → Trace
      → Trace × Result LlmError InferenceResponse
  after_answer left (err e) again t = (t, err e)
  after_answer zero (ok v) again t =
      (t, ok (if is_empty_stop v then record v { content = some "WAITING" } else v))
  after_answer (suc left) (ok v) again t = elim (is_empty_stop v) [
    | false ↦ (t, ok v)
    | true ↦ again left t
  ]

  -- The requests after a first empty one carry the nudge.
  unfoldable pub ask_again : ℕ → List LlmMessage → Trace → Trace × Result LlmError InferenceResponse
  unfolding is_empty_stop
  ask_again zero messages t =
      let now = requested messages ∷ t in
      after_answer zero (r.inference now) (λ left u. (u, r.inference now)) now
  ask_again (suc left) messages t =
      let now = requested messages ∷ t in
      after_answer (suc left) (r.inference now) (λ rest u. ask_again left messages u) now

  -- The whole loop: a replayed response takes the place of the first request.
  unfoldable pub ask :
      List LlmMessage → Option InferenceResponse → Trace → Trace × Result LlmError InferenceResponse
  unfolding ask_again is_empty_stop
  ask messages replayed t =
      let nudged = λ (left : ℕ) (u : Trace). ask_again left (messages ++ (nudge ∷ [])) u in
      elim replayed [
        | some response ↦ after_answer max_empty_response_retries (ok response) nudged t
        | none ↦
            let now = requested messages ∷ t in
            after_answer max_empty_response_retries (r.inference now) nudged now
      ]
