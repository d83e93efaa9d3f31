-- ===== src/Session/Projection.antt =====
-- The session's reducer seen from one agent: which agent an event names, and what becomes of an
-- agent's state, with no session around it.
use mathlib.Core.Option
use roj.Base.{
  ℕ, ◌≡◌, refl, sym, ap, ◌∙◌, ◌⊎◌, ◌↔◌, inl, inr, String, true, false, Option, none, some, [], ◌∷◌,
  if◌then◌else◌, ◌=ₛ◌, arith, eq_iff, Bool-cases, Option-cases, Dict, lookup, lookup-insert, Result,
  ok, err,
}
use roj.Message.{Json, plain}
use roj.Agent.{AgentState}
use roj.Event.{
  EventBody, session_created, session_closed, session_reopened, session_restarted,
  session_metadata_set, session_overrides_set, session_handler_started, session_handler_completed,
  agent_spawned, agent_state_changed, handler_started, handler_completed, preamble_added,
  agent_paused, agent_resumed, agent_input_consumed, communicator_linked,
  agent_conversation_spliced, tool_started, tool_completed, tool_failed, inference_started,
  inference_completed, auxiliary_inference_completed, inference_failed, inference_retried,
  context_compacted, mailbox_message, mailbox_consumed, other, DomainEvent, HandlerName, on_start,
  on_complete,
}
use roj.Session.{SessionState, ReplayError, agent_not_found, update_agent}
use roj.Session.Turn.{
  on_inference_started, on_inference_completed, on_inference_failed, on_inference_retried,
}
use roj.Session.Tools.{on_tool_done, on_tool_started}
use roj.Session.Control.{
  on_agent_paused, on_agent_resumed, on_state_changed, on_conversation_spliced,
  on_context_compacted, on_preamble_added, on_start_completed, on_complete_completed, restart_agent,
  restart_agents,
}
use roj.Session.Reducer.{
  reduce_body, core_reducer, handler_done, annotate, spawn, spawned_agent, set_overrides,
}

-- What an event does: nothing to agents, an update of one, a new agent, or a restart of all.
pub data Effect : Type 0 where
  no_agent : Effect
  updates : String → (AgentState → AgentState) → Effect
  spawns : String → AgentState → Effect
  restarts : Effect

abbrev pub handler_effect : String → HandlerName → Option Json → Effect
handler_effect id on_start result = updates id on_start_completed
handler_effect id on_complete none = updates id on_complete_completed
handler_effect id _ result = no_agent

abbrev pub effect : ℕ → EventBody → Effect
effect now (agent_spawned id name parent input) = spawns id (spawned_agent id name parent input)
effect now (agent_state_changed id _ to_state) = updates id (on_state_changed to_state)
effect now (inference_started e) = updates e.agent_id (on_inference_started e)
effect now (inference_completed id r m) = updates id (on_inference_completed r m)
effect now (inference_failed id error) = updates id (on_inference_failed now)
effect now (inference_retried id) = updates id on_inference_retried
effect now (tool_completed e result) =
    updates e.agent_id (on_tool_done e.tool_call_id now false result)
effect now (tool_failed e error) =
    updates e.agent_id (on_tool_done e.tool_call_id now true (plain error))
effect now (tool_started id call name input) = updates id (on_tool_started call name now)
effect now (context_compacted id history) = updates id (on_context_compacted history)
effect now (session_restarted _ _) = restarts
effect now (agent_conversation_spliced id start count inserted) =
    updates id (on_conversation_spliced start count inserted)
effect now (handler_completed id name result) = handler_effect id name result
effect now (preamble_added id messages) = updates id (on_preamble_added messages)
effect now (agent_paused id reason message held) = updates id (on_agent_paused reason message held)
effect now (agent_resumed id) = updates id on_agent_resumed
effect now _ = no_agent

-- The agent `b` after an effect.
abbrev pub agent_after : Effect → String → Option AgentState → Option AgentState
agent_after no_agent b before = before
agent_after (updates id f) b before = if id =ₛ b then Option.map f before else before
agent_after (spawns id agent) b before = if id =ₛ b then some agent else before
agent_after restarts b before = Option.map restart_agent before

abbrev pub absent : String → Option AgentState → Option String
absent id none = some id
absent id (some a) = none

abbrev pub missing : Effect → Dict AgentState → Option String
missing (updates id f) agents = absent id (lookup id agents)
missing _ agents = none

-- The outcome of a step, given what it does to agents and the agent that it misses.
abbrev pub Steps : SessionState → Effect → Result ReplayError SessionState → Type 0
Steps s eff (ok t) =
    (missing eff s.agents ≡ none)
    × ((b : String) → lookup b t.agents ≡ agent_after eff b (lookup b s.agents))
Steps s eff (err (agent_not_found id)) = missing eff s.agents ≡ some id
Steps s eff (err _) = ⊥

lookup-restart_agents :
    (b : String) (agents : Dict AgentState)
    → lookup b (restart_agents agents) ≡ Option.map restart_agent (lookup b agents)
unfolding lookup restart_agents
lookup-restart_agents b [] = refl
lookup-restart_agents b ((id, a) ∷ agents) = ground (arith, lookup-restart_agents b agents)

update_agent-Steps :
    (s : SessionState) (id : String) (f : AgentState → AgentState)
    → Steps s (updates id f) (update_agent s id f)
unfolding update_agent
update_agent-Steps s id f = elim (Option-cases (lookup id s.agents)) [
  | inl e ↦ rw (e, update_agent) (ap (absent id) e)
  | inr (a, e) ↦
      rw (e, update_agent)
        (
          ap (absent id) e,
          λ b. lookup-insert id b (f a) s.agents ∙ updated a e b (Bool-cases (id =ₛ b)),
        )
]
  where
    updated :
        (a : AgentState)
        → lookup id s.agents ≡ some a
        → (b : String) → ((id =ₛ b) ≡ true) ⊎ ((id =ₛ b) ≡ false)
        → (if id =ₛ b then some (f a) else lookup b s.agents)
          ≡ (if id =ₛ b then Option.map f (lookup b s.agents) else lookup b s.agents)
    updated a e b (inl same) = rw same (sym (ap (Option.map f) (rw ((eq_iff id b).0 same) at e)))
    updated a e b (inr differ) = rw differ

handler_done-Steps :
    (s : SessionState) (id : String) (name : HandlerName) (result : Option Json)
    → Steps s (handler_effect id name result) (handler_done id name result s)
unfolding handler_done
handler_done-Steps s id on_start result = update_agent-Steps s id _
handler_done-Steps s id on_complete none = update_agent-Steps s id _
handler_done-Steps s id on_complete (some _) = (refl, λ b. refl)
handler_done-Steps s id _ result = (refl, λ b. refl)

pub reduce_body-Steps :
    (s : SessionState) (now : ℕ) (body : EventBody)
    → Steps s (effect now body) (reduce_body s now body)
unfolding reduce_body annotate spawn set_overrides
reduce_body-Steps s now (session_created _ _ _) = (refl, λ b. refl)
reduce_body-Steps s now session_closed = (refl, λ b. refl)
reduce_body-Steps s now session_reopened = (refl, λ b. refl)
reduce_body-Steps s now (session_restarted _ _) = (refl, λ b. lookup-restart_agents b s.agents)
reduce_body-Steps s now (session_metadata_set _ _) = (refl, λ b. refl)
reduce_body-Steps s now (session_overrides_set _ _) = (refl, λ b. refl)
reduce_body-Steps s now (session_handler_started _ _) = (refl, λ b. refl)
reduce_body-Steps s now (session_handler_completed _ _ _ _) = (refl, λ b. refl)
reduce_body-Steps s now (agent_spawned id name parent input) =
    (refl, λ b. lookup-insert id b (spawned_agent id name parent input) s.agents)
reduce_body-Steps s now (handler_started _ _) = (refl, λ b. refl)
reduce_body-Steps s now (handler_completed id name result) = handler_done-Steps s id name result
reduce_body-Steps s now (agent_input_consumed _ _) = (refl, λ b. refl)
reduce_body-Steps s now (communicator_linked _ _) = (refl, λ b. refl)
reduce_body-Steps s now (auxiliary_inference_completed _ _) = (refl, λ b. refl)
reduce_body-Steps s now (mailbox_message _ _ _) = (refl, λ b. refl)
reduce_body-Steps s now (mailbox_consumed _ _) = (refl, λ b. refl)
reduce_body-Steps s now (other _) = (refl, λ b. refl)
reduce_body-Steps s now _ = update_agent-Steps s _ _

pub Steps-ok :
    (s t : SessionState) (eff : Effect) (r : Result ReplayError SessionState)
    → Steps s eff r
    → r ≡ ok t
    → (b : String) → lookup b t.agents ≡ agent_after eff b (lookup b s.agents)
Steps-ok s t eff (ok u) st e b = cc (st.1 b)
Steps-ok s t eff (err x) st e b = cc

Steps-fails_iff :
    (s : SessionState) (eff : Effect) (r : Result ReplayError SessionState) (id : String)
    → Steps s eff r
    → (r ≡ err (agent_not_found id)) ↔ (missing eff s.agents ≡ some id)
Steps-fails_iff s eff (ok t) id st = (λ e. cc, λ e. cc (st.0))
Steps-fails_iff s eff (err (agent_not_found x)) id st = (λ e. ground arith, λ e. ground arith)
Steps-fails_iff s eff (err _) id st = absurd st

-- The reducer throws `Agent not found` exactly for an event that updates an agent which the
-- session does not have, and names that agent.
pub core_reducer-fails_iff :
    (s : SessionState) (e : DomainEvent) (id : String)
    → (core_reducer s e ≡ err (agent_not_found id))
      ↔ (missing (effect e.timestamp e.body) s.agents ≡ some id)
unfolding core_reducer
core_reducer-fails_iff s e id = Steps-fails_iff s _ _ id (reduce_body-Steps s e.timestamp e.body)
