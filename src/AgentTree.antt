-- ===== src/AgentTree.antt =====
-- The agent tree that clients keep, packages/shared/src/projections: agent-status.ts,
-- agent-tree-projection.ts (its reducer) and protocol-status.ts. The ids that `inference_completed`
-- carries are left out: the count they lower is overwritten by the entry that is set after it.
pub mod Entries
pub mod Mirror
pub mod Updates
pub mod Conformance
use roj.Base.{
  ℕ, ◌+◌, ◌-◌, String, Bool, true, false, Option, none, some, List, [], ◌∷◌, if◌then◌else◌, ◌==◌,
  ltb, length, or_zero, Dict, lookup, insert,
}
use roj.Agent.{AgentStatus, pending, inferring, tool_exec, errored, paused}
use roj.Event.{
  EventBody, agent_spawned, agent_state_changed, inference_started, inference_completed,
  inference_failed, inference_retried, tool_started, tool_completed, tool_failed, agent_paused,
  agent_resumed, session_restarted, mailbox_message, mailbox_consumed, DomainEvent,
}
use roj.Session.Control.{is_reset}

pub record AgentTreeEntry : Type 0 where
  pub id : String
  pub definition_name : String
  pub status : AgentStatus
  pub parent_id : Option String
  pub pending_tool_call_count : ℕ
  pub is_executing : Bool
  pub mailbox_unconsumed_count : ℕ
  pub cost : ℕ

abbrev pub status_after_inference_completed : AgentStatus → ℕ → AgentStatus
status_after_inference_completed paused n = paused
status_after_inference_completed _ n = if ltb 0 n then tool_exec else pending

abbrev pub status_after_tool_result : AgentStatus → ℕ → AgentStatus
status_after_tool_result paused n = paused
status_after_tool_result _ n = if n == 0 then pending else tool_exec

abbrev pub status_after_inference_retried : AgentStatus → AgentStatus
status_after_inference_retried paused = paused
status_after_inference_retried _ = pending

abbrev pub status_after_resume : ℕ → AgentStatus
status_after_resume n = if ltb 0 n then tool_exec else pending

abbrev pub spawned_entry : String → String → Option String → AgentTreeEntry
spawned_entry id name parent = record {
  id = id;
  definition_name = name;
  status = pending;
  parent_id = parent;
  pending_tool_call_count = 0;
  is_executing = false;
  mailbox_unconsumed_count = 0;
  cost = 0;
}

abbrev pub with_status : AgentStatus → AgentTreeEntry → AgentTreeEntry
with_status s entry = record entry { status = s }

-- With the count of tool calls of the response, and its cost.
abbrev pub entry_completed : ℕ → Option ℕ → AgentTreeEntry → AgentTreeEntry
entry_completed n cost entry = record entry {
  status = status_after_inference_completed entry.status n;
  pending_tool_call_count = n;
  is_executing = false;
  cost = entry.cost + or_zero cost;
}

abbrev pub entry_retried : AgentTreeEntry → AgentTreeEntry
entry_retried entry = record entry { status = status_after_inference_retried entry.status }

abbrev pub entry_executing : AgentTreeEntry → AgentTreeEntry
entry_executing entry = record entry { is_executing = true }

-- `tool_completed` and `tool_failed`.
abbrev pub entry_tool_done : AgentTreeEntry → AgentTreeEntry
entry_tool_done entry = record entry {
  pending_tool_call_count = entry.pending_tool_call_count - 1;
  is_executing = false;
  status = status_after_tool_result entry.status (entry.pending_tool_call_count - 1);
}

abbrev pub entry_resumed : AgentTreeEntry → AgentTreeEntry
entry_resumed entry = record entry { status = status_after_resume entry.pending_tool_call_count }

abbrev pub entry_restarted : AgentTreeEntry → AgentTreeEntry
entry_restarted entry = record entry {
  status = if is_reset entry.status then pending else entry.status;
  is_executing = false;
}

abbrev pub entry_mailed : AgentTreeEntry → AgentTreeEntry
entry_mailed entry = record entry { mailbox_unconsumed_count = entry.mailbox_unconsumed_count + 1 }

abbrev pub entry_consumed : ℕ → AgentTreeEntry → AgentTreeEntry
entry_consumed n entry = record entry {
  mailbox_unconsumed_count = entry.mailbox_unconsumed_count - n;
}

-- `if (!agent) return state`, else the entry is set again.
unfoldable pub update_entry :
    String → (AgentTreeEntry → AgentTreeEntry) → Dict AgentTreeEntry → Dict AgentTreeEntry
update_entry id f agents = elim (lookup id agents) [
  | none ↦ agents
  | some entry ↦ insert id (f entry) agents
]

unfoldable pub restart_entries : Dict AgentTreeEntry → Dict AgentTreeEntry
restart_entries [] = []
restart_entries ((id, entry) ∷ agents) = (id, entry_restarted entry) ∷ restart_entries agents

unfoldable pub apply_event_to_agent_tree : Dict AgentTreeEntry → EventBody → Dict AgentTreeEntry
unfolding update_entry restart_entries
apply_event_to_agent_tree agents (agent_spawned id name parent input) =
    insert id (spawned_entry id name parent) agents
apply_event_to_agent_tree agents (agent_state_changed id from_state to_state) =
    update_entry id (with_status to_state) agents
apply_event_to_agent_tree agents (inference_started e) =
    update_entry e.agent_id (with_status inferring) agents
apply_event_to_agent_tree agents (inference_completed id response metrics) =
    update_entry id (entry_completed (length response.tool_calls) metrics.cost) agents
apply_event_to_agent_tree agents (inference_failed id error) =
    update_entry id (with_status errored) agents
apply_event_to_agent_tree agents (inference_retried id) = update_entry id entry_retried agents
apply_event_to_agent_tree agents (tool_started id call name input) =
    update_entry id entry_executing agents
apply_event_to_agent_tree agents (tool_completed e result) =
    update_entry e.agent_id entry_tool_done agents
apply_event_to_agent_tree agents (tool_failed e error) =
    update_entry e.agent_id entry_tool_done agents
apply_event_to_agent_tree agents (agent_paused id reason message held) =
    update_entry id (with_status paused) agents
apply_event_to_agent_tree agents (agent_resumed id) = update_entry id entry_resumed agents
apply_event_to_agent_tree agents (session_restarted _ _) = restart_entries agents
apply_event_to_agent_tree agents (mailbox_message to sequence message) =
    update_entry to entry_mailed agents
apply_event_to_agent_tree agents (mailbox_consumed id ids) =
    update_entry id (entry_consumed (length ids)) agents
apply_event_to_agent_tree agents _ = agents

-- The tree of a whole log.
unfoldable pub agent_tree : Dict AgentTreeEntry → List DomainEvent → Dict AgentTreeEntry
unfolding apply_event_to_agent_tree
agent_tree agents [] = agents
agent_tree agents (e ∷ es) = agent_tree (apply_event_to_agent_tree agents e.body) es

-- `toProtocolStatus`
pub data ProtocolStatus : Type 0 where
  idle thinking responding error is_paused : ProtocolStatus

abbrev pub to_protocol_status : AgentStatus → ProtocolStatus
to_protocol_status pending = idle
to_protocol_status inferring = thinking
to_protocol_status tool_exec = responding
to_protocol_status errored = error
to_protocol_status paused = is_paused
