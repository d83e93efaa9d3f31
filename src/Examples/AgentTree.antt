-- ===== src/Examples/AgentTree.antt =====
-- The theorem on the agent tree, at the log of the small session.
use roj.Base.{
  ◌≡◌, refl, none, some, List, [], ◌∷◌, ◌++◌, length, Option, ok, Result, ℕ, lookup, insert,
}
use roj.Event.{agent_conversation_spliced, DomainEvent}
use roj.Session.{SessionState, ReplayError, create_session_state, update_agent}
use roj.Session.Turn.{on_inference_completed, from_llm_tool_calls}
use roj.Session.Reducer.{
  reconstruct_session_state, reduce_events, core_reducer, reduce_body, spawn, spawned_agent,
  annotate,
}
use roj.Session.Tools.{on_tool_done}
use roj.Session.Control.{on_conversation_spliced}
use roj.Agent.{AgentState}
use roj.AgentTree.{AgentTreeEntry, apply_event_to_agent_tree, update_entry, agent_tree}
use roj.AgentTree.Mirror.{Shown, OrderlyRun}
use roj.AgentTree.Conformance.{agent_tree-Shown}
use roj.Examples.{event, created, spawned, inference, tool_done}

abbrev pub log : List DomainEvent
log = created ∷ spawned ∷ inference ∷ tool_done ∷ []

pub rebuilt : (t : SessionState) × (reconstruct_session_state log ≡ ok (some t))
unfolding reconstruct_session_state reduce_events core_reducer reduce_body annotate spawn
    update_agent create_session_state lookup insert
rebuilt = (_, refl)

pub log-OrderlyRun : OrderlyRun "a1" log none
unfolding spawned_agent on_inference_completed from_llm_tool_calls
log-OrderlyRun = (tt, (tt, ((λ _. refl), ((λ _. refl), tt))))

agent_tree-Shown_example : Shown (lookup "a1" (agent_tree [] log)) (lookup "a1" rebuilt.0.agents)
agent_tree-Shown_example = agent_tree-Shown log rebuilt.0 "a1" rebuilt.1 log-OrderlyRun

abbrev spliced_log : List DomainEvent
spliced_log = log ++ (event 9 (agent_conversation_spliced "a1" 0 0 []) ∷ [])

abbrev entry_calls : Option AgentTreeEntry → ℕ
entry_calls none = 0
entry_calls (some e) = e.pending_tool_call_count

abbrev agent_calls : Option AgentState → ℕ
agent_calls none = 0
agent_calls (some a) = length a.pending_tool_calls

abbrev session_calls : Result ReplayError (Option SessionState) → ℕ
session_calls (ok (some t)) = agent_calls (lookup "a1" t.agents)
session_calls _ = 0

-- After a splice in a tool phase the tree keeps the call that the session dropped.
stale_call :
    (entry_calls (lookup "a1" (agent_tree [] spliced_log)) ≡ 1)
    × (session_calls (reconstruct_session_state spliced_log) ≡ 0)
unfolding agent_tree apply_event_to_agent_tree lookup insert update_entry on_inference_completed
    from_llm_tool_calls on_conversation_spliced reconstruct_session_state reduce_events core_reducer
    reduce_body annotate spawn update_agent create_session_state on_tool_done
stale_call = (refl, refl)
