-- ===== src/Session/Reducer.antt =====
-- `coreReducer`, `composeReducers` and `reconstructSessionState`.
use roj.Base.{
  ℕ, ◌+◌, String, true, false, Option, none, some, List, [], ◌∷◌, Dict, lookup, insert, remove,
  or_zero, or_else, Result, ok, err, ◌>>=◌,
}
use roj.Message.{Json, plain}
use roj.Agent.{AgentState, create_agent_state, truthy}
use roj.Event.{
  EventBody, session_created, session_closed, session_reopened, session_restarted,
  session_metadata_set, session_overrides_set, session_handler_started, session_handler_completed,
  agent_spawned, agent_state_changed, handler_started, handler_completed, preamble_added,
  agent_paused, agent_resumed, agent_input_consumed, communicator_linked,
  agent_conversation_spliced, tool_started, tool_completed, tool_failed, inference_started,
  inference_completed, auxiliary_inference_completed, inference_failed, inference_retried,
  context_compacted, mailbox_message, mailbox_consumed, other, DomainEvent, AgentOverrides, Patch,
  untouched, cleared, replaced, ForkOrigin, HandlerName, on_start, on_complete,
}
use roj.Session.{
  SessionState, ReplayError, first_event_not_created, active, closed, create_session_state,
  add_agent, update_agent,
}
use roj.Session.Turn.{
  on_inference_started, on_inference_completed, on_inference_failed, on_inference_retried,
}
use roj.Session.Tools.{on_tool_done, on_tool_started}
use roj.Session.Control.{
  on_agent_paused, on_agent_resumed, on_state_changed, on_conversation_spliced,
  on_context_compacted, on_preamble_added, on_start_completed, on_complete_completed,
  restart_agents,
}

unfoldable pub spawned_agent : String → String → Option String → Option Json → AgentState
unfolding create_agent_state
spawned_agent id definition_name parent_id typed_input =
    record (create_agent_state id definition_name) {
      parent_id = parent_id;
      typed_input = typed_input;
    }

unfoldable pub spawn : String → String → Option String → Option Json → SessionState → SessionState
unfolding add_agent spawned_agent
spawn id name parent_id typed_input s =
    add_agent counted (spawned_agent id name parent_id typed_input)
  where
    counted : SessionState
    counted = record s {
      agent_counters = insert name (or_zero (lookup name s.agent_counters) + 1) s.agent_counters;
    }

-- The case `session_created`.
unfoldable pub annotate : Option String → Option ForkOrigin → SessionState → SessionState
annotate workspace_dir forked_from s = record s {
  workspace_dir = or_else (truthy workspace_dir) s.workspace_dir;
  forked_from = or_else forked_from s.forked_from;
}

abbrev patched : Patch → Option AgentOverrides → Option AgentOverrides
patched untouched old = old
patched cleared old = none
patched (replaced o) old = some o

unfoldable pub patch_agents :
    List (String × Option AgentOverrides) → Dict AgentOverrides → Dict AgentOverrides
patch_agents [] agents = agents
patch_agents ((name, none) ∷ entries) agents = patch_agents entries (remove name agents)
patch_agents ((name, some o) ∷ entries) agents = patch_agents entries (insert name o agents)

unfoldable pub set_overrides :
    Patch → List (String × Option AgentOverrides) → SessionState → SessionState
unfolding patch_agents
set_overrides defaults entries s = record s {
  overrides = record {
    defaults = patched defaults s.overrides.defaults;
    agents = patch_agents entries s.overrides.agents;
  };
}

-- The case `handler_completed`.
unfoldable pub handler_done :
    String → HandlerName → Option Json → SessionState → Result ReplayError SessionState
handler_done id on_start result s = update_agent s id on_start_completed
handler_done id on_complete none s = update_agent s id on_complete_completed
handler_done id _ result s = ok s

unfoldable pub reduce_body : SessionState → ℕ → EventBody → Result ReplayError SessionState
unfolding handler_done
reduce_body s now session_closed = ok (record s { status = closed; closed_at = some now })
reduce_body s now session_reopened = ok (record s { status = active; closed_at = none })
reduce_body s now (agent_spawned id name parent input) = ok (spawn id name parent input s)
reduce_body s now (agent_state_changed id from_state to_state) =
    update_agent s id (on_state_changed to_state)
reduce_body s now (inference_started e) = update_agent s e.agent_id (on_inference_started e)
reduce_body s now (inference_completed id response metrics) =
    update_agent s id (on_inference_completed response metrics)
reduce_body s now (inference_failed id error) = update_agent s id (on_inference_failed now)
reduce_body s now (inference_retried id) = update_agent s id on_inference_retried
reduce_body s now (tool_completed e result) =
    update_agent s e.agent_id (on_tool_done e.tool_call_id now false result)
reduce_body s now (tool_failed e error) =
    update_agent s e.agent_id (on_tool_done e.tool_call_id now true (plain error))
reduce_body s now (context_compacted id history) = update_agent s id (on_context_compacted history)
reduce_body s now (tool_started id call name input) =
    update_agent s id (on_tool_started call name now)
reduce_body s now (session_restarted _ _) = ok (record s { agents = restart_agents s.agents })
reduce_body s now (agent_conversation_spliced id start count inserted) =
    update_agent s id (on_conversation_spliced start count inserted)
reduce_body s now (session_created preset dir origin) = ok (annotate dir origin s)
reduce_body s now (handler_started id name) = ok s
reduce_body s now (handler_completed id name result) = handler_done id name result s
reduce_body s now (preamble_added id messages) = update_agent s id (on_preamble_added messages)
reduce_body s now (session_handler_started handler plugin) = ok s
reduce_body s now (session_handler_completed handler plugin duration error) = ok s
reduce_body s now (session_metadata_set key value) =
    ok (record s { metadata = insert key value s.metadata })
reduce_body s now (session_overrides_set defaults entries) = ok (set_overrides defaults entries s)
reduce_body s now (agent_paused id reason message resume_on_input) =
    update_agent s id (on_agent_paused reason message resume_on_input)
reduce_body s now (agent_resumed id) = update_agent s id on_agent_resumed
reduce_body s now (agent_input_consumed _ _) = ok s
reduce_body s now (communicator_linked _ _) = ok s
reduce_body s now (auxiliary_inference_completed _ _) = ok s
reduce_body s now (mailbox_message _ _ _) = ok s
reduce_body s now (mailbox_consumed _ _) = ok s
reduce_body s now (other _) = ok s

unfoldable pub core_reducer : SessionState → DomainEvent → Result ReplayError SessionState
unfolding reduce_body
core_reducer s e = reduce_body s e.timestamp e.body

-- `events.reduce(reducer, state)`; an exception ends it.
unfoldable pub reduce_events : SessionState → List DomainEvent → Result ReplayError SessionState
reduce_events s [] = ok s
reduce_events s (e ∷ es) = core_reducer s e >>= λ t. reduce_events t es

-- The state before the first event, which must be `session_created`.
abbrev initial_state : DomainEvent → EventBody → Result ReplayError SessionState
initial_state e (session_created preset _ _) =
    ok (create_session_state e.session_id preset e.timestamp)
initial_state e _ = err first_event_not_created

unfoldable pub reconstruct_session_state :
    List DomainEvent → Result ReplayError (Option SessionState)
unfolding reduce_events
reconstruct_session_state [] = ok none
reconstruct_session_state (e ∷ es) = initial_state e e.body >>= λ initial.
    reduce_events initial (e ∷ es) >>= λ final. ok (some final)
