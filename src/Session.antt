-- ===== src/Session.antt =====
-- The state of a session and its queries: packages/sdk/src/core/sessions/state.ts. The children
-- hold the reducer's cases, the reducer, replay, recovery and forks, and what is proved of them.
pub mod Turn
pub mod Tools
pub mod Control
pub mod Reducer
pub mod Fork
pub mod Projection
pub mod Runs
pub mod Pause
pub mod ToolTurn
pub mod Attempts
pub mod Sequences
pub mod Recovery
pub mod Soundness
use roj.Base.{
  ℕ, ◌+◌, String, Bool, true, false, Option, none, some, List, [], ◌∷◌, if◌then◌else◌, ◌=ₛ◌, Dict,
  lookup, insert, values, or_zero, or_else, Result, ok, err,
}
use roj.Message.{Json}
use roj.Agent.{AgentState, truthy}
use roj.Event.{ForkOrigin, AgentOverrides}

abbrev pub orchestrator_role : String
orchestrator_role = "orchestrator"

abbrev pub communicator_role : String
communicator_role = "communicator"

pub data SessionStatus : Type 0 where
  active closed : SessionStatus

pub record SessionOverrides : Type 0 where
  pub defaults : Option AgentOverrides
  pub agents : Dict AgentOverrides

pub record SessionState : Type 0 where
  pub id : String
  pub preset_id : String
  pub status : SessionStatus
  pub agents : Dict AgentState
  pub created_at : ℕ
  pub closed_at : Option ℕ
  pub agent_counters : Dict ℕ
  pub workspace_dir : Option String
  pub metadata : Dict Json
  pub overrides : SessionOverrides
  pub forked_from : Option ForkOrigin

-- What the reducer and the replay throw.
pub data ReplayError : Type 0 where
  agent_not_found : String → ReplayError
  first_event_not_created : ReplayError

unfoldable pub create_session_state : String → String → ℕ → SessionState
create_session_state id preset_id timestamp = record {
  id = id;
  preset_id = preset_id;
  status = active;
  agents = [];
  created_at = timestamp;
  closed_at = none;
  agent_counters = [];
  workspace_dir = none;
  metadata = [];
  overrides = record { defaults = none; agents = [] };
  forked_from = none;
}

abbrev pub own_model : Option AgentOverrides → Option String
own_model none = none
own_model (some o) = o.model

-- The entry of the definition, spread over the defaults.
unfoldable pub resolve_agent_overrides : SessionState → String → AgentOverrides
resolve_agent_overrides s definition_name = record {
  model =
      or_else (own_model (lookup definition_name s.overrides.agents))
        (own_model s.overrides.defaults);
}

unfoldable pub add_agent : SessionState → AgentState → SessionState
add_agent s agent = record s { agents = insert agent.id agent s.agents }

unfoldable pub update_agent :
    SessionState → String → (AgentState → AgentState) → Result ReplayError SessionState
update_agent s agent_id updater = elim (lookup agent_id s.agents) [
  | none ↦ err (agent_not_found agent_id)
  | some agent ↦ ok (record s { agents = insert agent_id (updater agent) s.agents })
]

-- The first agent of a definition, in insertion order.
first_of_definition : String → List AgentState → Option String
first_of_definition name [] = none
first_of_definition name (a ∷ as') =
    if a.definition_name =ₛ name then some a.id else first_of_definition name as'

unfoldable pub get_orchestrator_id : SessionState → Option String
unfolding first_of_definition
get_orchestrator_id s = first_of_definition orchestrator_role (values s.agents)

unfoldable pub get_communicator_id : SessionState → Option String
unfolding first_of_definition
get_communicator_id s = first_of_definition communicator_role (values s.agents)

unfoldable pub get_entry_agent_id : SessionState → Option String
unfolding get_communicator_id get_orchestrator_id
get_entry_agent_id s = elim (get_communicator_id s) [
  | none ↦ get_orchestrator_id s
  | some id ↦ some id
]

unfoldable pub get_next_agent_seq : SessionState → String → ℕ
get_next_agent_seq s definition_name = or_zero (lookup definition_name s.agent_counters) + 1

-- `getChildren` and `getParent` of core/agents/state.ts.
abbrev is_child : String → Option String → Bool
is_child parent none = false
is_child parent (some p) = p =ₛ parent

children_in : String → List AgentState → List AgentState
children_in parent [] = []
children_in parent (a ∷ as') =
    let rest = children_in parent as' in if is_child parent a.parent_id then a ∷ rest else rest

unfoldable pub get_children : SessionState → String → List AgentState
unfolding children_in
get_children s parent_id = children_in parent_id (values s.agents)

unfoldable pub get_parent : SessionState → AgentState → Option AgentState
get_parent s agent = elim (truthy agent.parent_id) [ none ↦ none | some p ↦ lookup p s.agents ]
