-- ===== src/Store/Metadata.antt =====
-- The metadata of a session, computed from its whole log and kept up to date event by event.
use Prim.Native.Char.{code}
use roj.Base.{
  ℕ, ◌+◌, String, Bool, true, false, ◌&&◌, ◌||◌, Option, none, some, List, [], ◌∷◌, if◌then◌else◌,
  ◌==◌, leb, or_zero, or_else, get_or, all, length,
}
use roj.Message.{Json}
use roj.Agent.{LlmMetrics}
use roj.Event.{
  EventBody, session_created, session_closed, session_reopened, agent_spawned, inference_completed,
  auxiliary_inference_completed, mailbox_message, tool_started, DomainEvent,
}

pub data MetadataStatus : Type 0 where
  active closed errored : MetadataStatus

abbrev pub is_closed : MetadataStatus → Bool
is_closed closed = true
is_closed _ = false

pub record Metrics : Type 0 where
  pub total_events : ℕ
  pub total_agents : ℕ
  pub total_tokens : ℕ
  pub total_llm_calls : ℕ
  pub input_tokens : Option ℕ
  pub output_tokens : Option ℕ
  pub total_cost : Option ℕ
  pub total_messages : Option ℕ
  pub total_tool_calls : Option ℕ

pub record SessionMetadata : Type 0 where
  pub session_id : String
  pub preset_id : String
  pub created_at : ℕ
  pub last_activity_at : ℕ
  pub status : MetadataStatus
  pub name : Option String
  pub tags : Option (List String)
  pub metrics : Option Metrics
  pub custom : Option Json

abbrev pub zero_metrics : ℕ → Metrics
zero_metrics total_events = record {
  total_events = total_events;
  total_agents = 0;
  total_tokens = 0;
  total_llm_calls = 0;
  input_tokens = some 0;
  output_tokens = some 0;
  total_cost = some 0;
  total_messages = some 0;
  total_tool_calls = some 0;
}

abbrev pub plus : Option ℕ → ℕ → Option ℕ
plus o n = some (or_zero o + n)

-- One event of `updateMetadataFromEvents`.
abbrev pub bill : LlmMetrics → Metrics → Metrics
bill u m = record m {
  total_tokens = m.total_tokens + u.total_tokens;
  input_tokens = plus m.input_tokens u.prompt_tokens;
  output_tokens = plus m.output_tokens u.completion_tokens;
  total_cost = plus m.total_cost (or_zero u.cost);
  total_llm_calls = m.total_llm_calls + 1;
  total_events = m.total_events + 1;
}

unfoldable pub count_event : Metrics → EventBody → Metrics
count_event m (session_created _ _ _) = zero_metrics 1
count_event m (agent_spawned _ _ _ _) = record m {
  total_agents = m.total_agents + 1;
  total_events = m.total_events + 1;
}
count_event m (inference_completed _ _ u) = bill u m
count_event m (auxiliary_inference_completed _ u) = bill u m
count_event m (mailbox_message _ _ _) = record m {
  total_messages = plus m.total_messages 1;
  total_events = m.total_events + 1;
}
count_event m (tool_started _ _ _ _) = record m {
  total_tool_calls = plus m.total_tool_calls 1;
  total_events = m.total_events + 1;
}
count_event m _ = record m { total_events = m.total_events + 1 }

-- What the events of one append put into the record: a `Partial<SessionMetadata>`.
pub record MetadataUpdate : Type 0 where
  pub preset_id : Option String
  pub created_at : Option ℕ
  pub last_activity_at : Option ℕ
  pub status : Option MetadataStatus
  pub name : Option String
  pub tags : Option (List String)
  pub metrics : Option Metrics
  pub custom : Option Json

abbrev pub no_update : MetadataUpdate
no_update = record {
  preset_id = none;
  created_at = none;
  last_activity_at = none;
  status = none;
  name = none;
  tags = none;
  metrics = none;
  custom = none;
}

abbrev pub note_status : EventBody → ℕ → MetadataUpdate → MetadataUpdate
note_status (session_created preset _ _) t u = record u {
  created_at = some t;
  preset_id = some preset;
  status = some active;
}
note_status session_closed t u = record u { status = some closed }
note_status session_reopened t u = record u { status = some active }
note_status _ t u = u

abbrev pub note_event : DomainEvent → MetadataUpdate → MetadataUpdate
note_event e u = note_status e.body e.timestamp (record u { last_activity_at = some e.timestamp })

unfoldable pub tally : MetadataUpdate → Metrics → List DomainEvent → MetadataUpdate
tally u m [] = record u { metrics = some m }
tally u m (e ∷ es) = tally (note_event e u) (count_event m e.body) es

-- `SESSION_ID_PATTERN`: 1 to 64 letters, digits, `_` or `-`.
abbrev pub codes : String → List ℕ
codes String.[] = []
codes (String.◌∷◌ c s) = code c ∷ codes s

abbrev pub between : ℕ → ℕ → ℕ → Bool
between lo hi c = leb lo c && leb c hi

abbrev pub is_id_char : ℕ → Bool
is_id_char c =
    between b'A' b'Z' c || between b'a' b'z' c || between b'0' b'9' c || c == b'_' || c == b'-'

unfoldable pub is_valid_session_id : String → Bool
is_valid_session_id id = all is_id_char (codes id) && between 1 64 (length (codes id))

abbrev field {ℓ} : {A : Type ℓ} → (SessionMetadata → A) → Option SessionMetadata → Option A
field get none = none
field get (some m) = some (get m)

abbrev optional {ℓ} :
    {A : Type ℓ} → (SessionMetadata → Option A) → Option SessionMetadata → Option A
optional get none = none
optional get (some m) = get m

-- The schema's required fields; a merge that lacks one is not written.
abbrev parsed :
    String
    → Option String
    → Option ℕ
    → ℕ
    → Option MetadataStatus
    → MetadataUpdate
    → Option SessionMetadata
parsed id (some preset) (some created) last (some status) u = some (record {
  session_id = id;
  preset_id = preset;
  created_at = created;
  last_activity_at = last;
  status = status;
  name = u.name;
  tags = u.tags;
  metrics = u.metrics;
  custom = u.custom;
})
parsed id _ _ last _ u = none

-- `mergeMetadata`: the record to write, if the schema accepts it.
unfoldable pub merge_metadata :
    ℕ → String → Option SessionMetadata → MetadataUpdate → Option SessionMetadata
merge_metadata now id existing u =
    if is_valid_session_id id
    then parsed id (or_else u.preset_id (field (λ m. m.preset_id) existing))
        (or_else u.created_at (field (λ m. m.created_at) existing)) (get_or u.last_activity_at now)
        (or_else u.status (field (λ m. m.status) existing))
        (record u {
          name = or_else u.name (optional (λ m. m.name) existing);
          tags = or_else u.tags (optional (λ m. m.tags) existing);
          metrics = or_else u.metrics (optional (λ m. m.metrics) existing);
          custom = or_else u.custom (optional (λ m. m.custom) existing);
        })
    else none

unfoldable pub update_metadata_from_events :
    ℕ → String → Option SessionMetadata → List DomainEvent → Option SessionMetadata
unfolding merge_metadata tally
update_metadata_from_events now id existing events =
    merge_metadata now id existing
      (tally no_update (get_or (optional (λ m. m.metrics) existing) (zero_metrics 0)) events)
