-- ===== src/Store/Recompute.antt =====
-- `computeMetricsFromEvents`, `computeMetadataFromEvents` and `needsReconciliation` of
-- packages/sdk/src/core/events/metadata-utils.ts.
use roj.Base.{
  ℕ, ◌+◌, String, Bool, true, false, not, ◌||◌, Option, none, some, List, [], ◌∷◌, ◌==◌, length,
}
use roj.Agent.{LlmMetrics}
use roj.Event.{
  EventBody, session_created, session_closed, session_reopened, agent_spawned, inference_completed,
  auxiliary_inference_completed, mailbox_message, tool_started, DomainEvent,
}
use roj.Store.Metadata.{
  MetadataStatus, Metrics, SessionMetadata, active, closed, plus, zero_metrics,
}

abbrev pub add_cost : Option ℕ → Option ℕ → Option ℕ
add_cost none total = total
add_cost (some c) total = plus total c

-- One event of `computeMetricsFromEvents`, which counts the events by the length of the log.
abbrev pub compute_bill : LlmMetrics → Metrics → Metrics
compute_bill u m = record m {
  total_llm_calls = m.total_llm_calls + 1;
  total_tokens = m.total_tokens + u.total_tokens;
  input_tokens = plus m.input_tokens u.prompt_tokens;
  output_tokens = plus m.output_tokens u.completion_tokens;
  total_cost = add_cost u.cost m.total_cost;
}

unfoldable pub compute_event : Metrics → EventBody → Metrics
compute_event m (agent_spawned _ _ _ _) = record m { total_agents = m.total_agents + 1 }
compute_event m (inference_completed _ _ u) = compute_bill u m
compute_event m (auxiliary_inference_completed _ u) = compute_bill u m
compute_event m (mailbox_message _ _ _) = record m { total_messages = plus m.total_messages 1 }
compute_event m (tool_started _ _ _ _) = record m { total_tool_calls = plus m.total_tool_calls 1 }
compute_event m _ = m

unfoldable pub compute_events : Metrics → List DomainEvent → Metrics
compute_events m [] = m
compute_events m (e ∷ es) = compute_events (compute_event m e.body) es

unfoldable pub compute_metrics_from_events : List DomainEvent → Metrics
unfolding compute_events
compute_metrics_from_events events = compute_events (zero_metrics (length events)) events

abbrev pub next_status : MetadataStatus → EventBody → MetadataStatus
next_status s session_closed = closed
next_status s session_reopened = active
next_status s _ = s

unfoldable pub status_from : MetadataStatus → List DomainEvent → MetadataStatus
status_from s [] = s
status_from s (e ∷ es) = status_from (next_status s e.body) es

unfoldable pub last_timestamp : ℕ → List DomainEvent → ℕ
last_timestamp t [] = t
last_timestamp t (e ∷ es) = last_timestamp e.timestamp es

abbrev pub computed : String → EventBody → DomainEvent → List DomainEvent → Option SessionMetadata
computed id (session_created preset _ _) e es = some (record {
  session_id = id;
  preset_id = preset;
  created_at = e.timestamp;
  last_activity_at = last_timestamp e.timestamp es;
  status = status_from active (e ∷ es);
  name = none;
  tags = none;
  metrics = some (compute_metrics_from_events (e ∷ es));
  custom = none;
})
computed id _ e es = none

unfoldable pub compute_metadata_from_events : String → List DomainEvent → Option SessionMetadata
unfolding compute_metrics_from_events status_from last_timestamp
compute_metadata_from_events id [] = none
compute_metadata_from_events id (e ∷ es) = computed id e.body e es

abbrev pub differs : Option Metrics → Option Metrics → Bool
differs none _ = true
differs (some a) none = false
differs (some a) (some b) =
    not (a.total_events == b.total_events)
    || not (a.total_agents == b.total_agents)
    || not (a.total_llm_calls == b.total_llm_calls)

unfoldable pub needs_reconciliation : Option SessionMetadata → SessionMetadata → Bool
needs_reconciliation none computed = true
needs_reconciliation (some stored) computed = differs stored.metrics computed.metrics
