-- ===== src/AgentTree/Entries.antt =====
-- The tree's reducer seen from one agent's entry.
use mathlib.Core.Option
use roj.Base.{
  ◌≡◌, refl, sym, ap, ◌∙◌, inl, inr, String, Option, none, some, [], ◌∷◌, if◌then◌else◌, ◌=ₛ◌,
  length, arith, eq_iff, Bool-cases, Option-cases, Dict, lookup, lookup-insert,
}
use roj.Agent.{inferring, errored, paused}
use roj.Event.{
  EventBody, agent_spawned, agent_state_changed, inference_started, inference_completed,
  inference_failed, inference_retried, tool_started, tool_completed, tool_failed, agent_paused,
  agent_resumed, session_restarted, mailbox_message, mailbox_consumed,
}
use roj.AgentTree.{
  AgentTreeEntry, spawned_entry, with_status, entry_completed, entry_retried, entry_executing,
  entry_tool_done, entry_resumed, entry_restarted, entry_mailed, entry_consumed, update_entry,
  restart_entries, apply_event_to_agent_tree,
}

-- The entry of `b` after an update of the entry of `id`.
abbrev pub at_entry :
    String
    → String
    → (AgentTreeEntry → AgentTreeEntry)
    → Option AgentTreeEntry
    → Option AgentTreeEntry
at_entry b id f o = if id =ₛ b then Option.map f o else o

abbrev pub entry_after : String → EventBody → Option AgentTreeEntry → Option AgentTreeEntry
entry_after b (agent_spawned id name parent input) o =
    if id =ₛ b then some (spawned_entry id name parent) else o
entry_after b (agent_state_changed id _ to_state) o = at_entry b id (with_status to_state) o
entry_after b (inference_started e) o = at_entry b e.agent_id (with_status inferring) o
entry_after b (inference_completed id r m) o =
    at_entry b id (entry_completed (length r.tool_calls) m.cost) o
entry_after b (inference_failed id error) o = at_entry b id (with_status errored) o
entry_after b (inference_retried id) o = at_entry b id entry_retried o
entry_after b (tool_started id call name input) o = at_entry b id entry_executing o
entry_after b (tool_completed e result) o = at_entry b e.agent_id entry_tool_done o
entry_after b (tool_failed e error) o = at_entry b e.agent_id entry_tool_done o
entry_after b (agent_paused id reason message held) o = at_entry b id (with_status paused) o
entry_after b (agent_resumed id) o = at_entry b id entry_resumed o
entry_after b (session_restarted _ _) o = Option.map entry_restarted o
entry_after b (mailbox_message to sequence message) o = at_entry b to entry_mailed o
entry_after b (mailbox_consumed id ids) o = at_entry b id (entry_consumed (length ids)) o
entry_after b _ o = o

updated :
    (f : AgentTreeEntry → AgentTreeEntry) (agents : Dict AgentTreeEntry) (b id : String)
    (entry : AgentTreeEntry)
    → lookup id agents ≡ some entry
    → (if id =ₛ b then some (f entry) else lookup b agents) ≡ at_entry b id f (lookup b agents)
updated f agents b id entry e = elim (Bool-cases (id =ₛ b)) [
  | inl same ↦ rw same (sym (ap (Option.map f) (rw ((eq_iff id b).0 same) at e)))
  | inr differ ↦ rw differ
]

not_there :
    (f : AgentTreeEntry → AgentTreeEntry) (agents : Dict AgentTreeEntry) (b id : String)
    → lookup id agents ≡ none
    → lookup b agents ≡ at_entry b id f (lookup b agents)
not_there f agents b id e = elim (Bool-cases (id =ₛ b)) [
  | inl same ↦ let q = rw ((eq_iff id b).0 same) at e in rw (same, q)
  | inr differ ↦ rw differ
]

lookup-update_entry :
    (f : AgentTreeEntry → AgentTreeEntry) (agents : Dict AgentTreeEntry) (b id : String)
    → lookup b (update_entry id f agents) ≡ at_entry b id f (lookup b agents)
unfolding update_entry
lookup-update_entry f agents b id = elim (Option-cases (lookup id agents)) [
  | inl e ↦ rw (update_entry, e) (not_there f agents b id e)
  | inr (entry, e) ↦
      rw (update_entry, e) (lookup-insert id b (f entry) agents ∙ updated f agents b id entry e)
]

lookup-restart_entries :
    (b : String) (agents : Dict AgentTreeEntry)
    → lookup b (restart_entries agents) ≡ Option.map entry_restarted (lookup b agents)
unfolding lookup restart_entries
lookup-restart_entries b [] = refl
lookup-restart_entries b ((id, a) ∷ agents) = ground (arith, lookup-restart_entries b agents)

pub lookup-apply_event_to_agent_tree :
    (agents : Dict AgentTreeEntry) (b : String) (body : EventBody)
    → lookup b (apply_event_to_agent_tree agents body) ≡ entry_after b body (lookup b agents)
unfolding apply_event_to_agent_tree
lookup-apply_event_to_agent_tree agents b (agent_spawned id name parent _) =
    lookup-insert id b (spawned_entry id name parent) agents
lookup-apply_event_to_agent_tree agents b (agent_state_changed id _ _) =
    lookup-update_entry _ agents b id
lookup-apply_event_to_agent_tree agents b (inference_started e) =
    lookup-update_entry _ agents b e.agent_id
lookup-apply_event_to_agent_tree agents b (inference_completed id _ _) =
    lookup-update_entry _ agents b id
lookup-apply_event_to_agent_tree agents b (inference_failed id _) =
    lookup-update_entry _ agents b id
lookup-apply_event_to_agent_tree agents b (inference_retried id) = lookup-update_entry _ agents b id
lookup-apply_event_to_agent_tree agents b (tool_started id _ _ _) =
    lookup-update_entry _ agents b id
lookup-apply_event_to_agent_tree agents b (tool_completed e _) =
    lookup-update_entry _ agents b e.agent_id
lookup-apply_event_to_agent_tree agents b (tool_failed e _) =
    lookup-update_entry _ agents b e.agent_id
lookup-apply_event_to_agent_tree agents b (agent_paused id _ _ _) =
    lookup-update_entry _ agents b id
lookup-apply_event_to_agent_tree agents b (agent_resumed id) = lookup-update_entry _ agents b id
lookup-apply_event_to_agent_tree agents b (session_restarted _ _) = lookup-restart_entries b agents
lookup-apply_event_to_agent_tree agents b (mailbox_message to _ _) =
    lookup-update_entry _ agents b to
lookup-apply_event_to_agent_tree agents b (mailbox_consumed id _) =
    lookup-update_entry _ agents b id
lookup-apply_event_to_agent_tree agents b _ = refl
