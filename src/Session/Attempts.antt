-- ===== src/Session/Attempts.antt =====
-- A turn that fails or is retried any number of times before it commits.
use roj.Base.{
  All, ℕ, ◌+◌, ◌≡◌, refl, ap, ◌∙◌, String, Bool, Option, some, List, [], ◌∷◌, ◌++◌, lookup, ok,
  or_zero,
}
use roj.Message.{LlmMessage}
use roj.Agent.{AgentState, LlmMetrics}
use roj.Event.{
  DomainEvent, InferenceStarted, LlmResponse, inference_started, inference_completed,
  inference_failed, inference_retried,
}
use roj.Session.{SessionState}
use roj.Session.Turn.{
  assistant_message, on_inference_started, on_inference_completed, on_inference_failed,
  on_inference_retried,
}
use roj.Session.Reducer.{reduce_events}
use roj.Session.Projection.{updates, agent_after, effect}
use roj.Session.Runs.{run_agent, Owned, reduce_events-Owned, run_agent-updates}

-- What an attempt stages for the agent `b`.
pub record Staged : Type 0 where
  pub messages : List LlmMessage
  pub llm_call_id : Option String
  pub input_key : Option String
  pub retried : Bool

abbrev pub start : String → Staged → InferenceStarted
start b x = record {
  agent_id = b;
  messages = x.messages;
  llm_call_id = x.llm_call_id;
  input_key = x.input_key;
  retried = x.retried;
}

pub data Attempt : Type 0 where
  failed : Staged → (started_at failed_at : ℕ) (error : String) → Attempt
  retried : Staged → (started_at retried_at : ℕ) → Attempt

-- The events of attempts that did not commit, then those of the one that did.
pub attempts_log : String → String → List Attempt → List DomainEvent → List DomainEvent
attempts_log id b [] rest = rest
attempts_log id b (failed x t u error ∷ attempts) rest =
    record { session_id = id; timestamp = t; body = inference_started (start b x) }
    ∷ record { session_id = id; timestamp = u; body = inference_failed b error }
    ∷ attempts_log id b attempts rest
attempts_log id b (retried x t u ∷ attempts) rest =
    record { session_id = id; timestamp = t; body = inference_started (start b x) }
    ∷ record { session_id = id; timestamp = u; body = inference_retried b }
    ∷ attempts_log id b attempts rest

abbrev pub commit_log :
    String → String → Staged → LlmResponse → LlmMetrics → (began ended : ℕ) → List DomainEvent
commit_log id b x r m began ended =
    record { session_id = id; timestamp = began; body = inference_started (start b x) }
    ∷ record { session_id = id; timestamp = ended; body = inference_completed b r m }
    ∷ []

pub record Committed (x : Staged) (r : LlmResponse) (a c : AgentState) : Type 0 where
  pub history :
      c.conversation_history ≡ a.conversation_history ++ (x.messages ++ assistant_message r ∷ [])
  pub no_messages : c.pending_messages ≡ []
  pub no_results : c.pending_tool_results ≡ []
  pub failures : c.consecutive_inference_failures ≡ some 0
  pub turn : c.turn_number ≡ some (or_zero a.turn_number + 1)

updates_twice :
    (b : String) (es : List DomainEvent) (f g : AgentState → AgentState) (a : AgentState)
    → run_agent b es (agent_after (updates b g) b (agent_after (updates b f) b (some a)))
      ≡ run_agent b es (some (g (f a)))
unfolding run_agent
updates_twice b es f g a =
    ap (λ o. run_agent b es (agent_after (updates b g) b o)) (run_agent-updates b [] f a)
    ∙ run_agent-updates b es g (f a)

module _ (b : String) (x : Staged) (r : LlmResponse) (m : LlmMetrics) (began ended : ℕ) where
  run_agent-attempts :
      (id : String) (attempts : List Attempt) (a : AgentState)
      → a.pending_messages ≡ []
      → (c : AgentState) × (run_agent b
            (attempts_log id b attempts (commit_log id b x r m began ended))
            (some a)
          ≡ some c)
        × Committed x r a c
  unfolding run_agent attempts_log on_inference_started on_inference_completed on_inference_failed
      on_inference_retried
  run_agent-attempts id [] a h = (
    on_inference_completed r m (on_inference_started (start b x) a),
    updates_twice b [] (on_inference_started (start b x)) (on_inference_completed r m) a,
    record { history = rw h; no_messages = refl; no_results = refl; failures = refl; turn = refl },
  )
  run_agent-attempts id (failed y t u error ∷ attempts) a h =
      let after = on_inference_failed u (on_inference_started (start b y) a) in
      let (c, e, v) = run_agent-attempts id attempts after refl in
      (
        c,
        updates_twice b (attempts_log id b attempts (commit_log id b x r m began ended))
              (on_inference_started (start b y)) (on_inference_failed u) a
            ∙ e,
        record {
          history = v.history;
          no_messages = v.no_messages;
          no_results = v.no_results;
          failures = v.failures;
          turn = v.turn;
        },
      )
  run_agent-attempts id (retried y t u ∷ attempts) a h =
      let after = on_inference_retried (on_inference_started (start b y) a) in
      let (c, e, v) = run_agent-attempts id attempts after refl in
      (
        c,
        updates_twice b (attempts_log id b attempts (commit_log id b x r m began ended))
              (on_inference_started (start b y)) on_inference_retried a
            ∙ e,
        record {
          history = v.history;
          no_messages = v.no_messages;
          no_results = v.no_results;
          failures = v.failures;
          turn = v.turn;
        },
      )

attempts_log-Owned :
    (id b : String) (attempts : List Attempt) (rest : List DomainEvent)
    → All (λ e. Owned b (effect e.timestamp e.body)) rest
    → All (λ e. Owned b (effect e.timestamp e.body)) (attempts_log id b attempts rest)
unfolding attempts_log
attempts_log-Owned id b [] rest h = h
attempts_log-Owned id b (failed x t u error ∷ attempts) rest h =
    (refl, (refl, attempts_log-Owned id b attempts rest h))
attempts_log-Owned id b (retried x t u ∷ attempts) rest h =
    (refl, (refl, attempts_log-Owned id b attempts rest h))

-- However many attempts of a turn failed or were retried first, replay succeeds, and the attempt
-- that commits leaves the agent's history extended by the messages which that attempt staged,
-- once, and the reply; nothing stays staged, the tool results are consumed, the failure count is
-- zero and the turn counts once. The agent exists and has no staged messages at the start.
pub reduce_events-attempts :
    (s : SessionState) (a : AgentState) (id b : String) (attempts : List Attempt) (x : Staged)
    (r : LlmResponse) (m : LlmMetrics) (began ended : ℕ)
    → lookup b s.agents ≡ some a
    → a.pending_messages ≡ []
    → (t : SessionState) × (c : AgentState) × (reduce_events s
          (attempts_log id b attempts (commit_log id b x r m began ended))
        ≡ ok t)
      × (lookup b t.agents ≡ some c)
      × Committed x r a c
reduce_events-attempts s a id b attempts x r m began ended found empty =
    let log = attempts_log id b attempts (commit_log id b x r m began ended) in
    let own =
      attempts_log-Owned id b attempts (commit_log id b x r m began ended) (refl, (refl, tt)) in
    let (t, ok_t, final) = reduce_events-Owned s b log a own found in
    let (c, e, v) = run_agent-attempts b x r m began ended id attempts a empty in
    (t, c, ok_t, final ∙ e, v)
