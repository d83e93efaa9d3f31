-- ===== src/Session/Recovery.antt =====
-- `checkRecoveryNeeded` of packages/sdk/src/core/sessions/state.ts, against the `session_restarted`
-- event that it calls for.
use roj.Base.{
  ℕ, ◌≡◌, refl, String, Bool, true, false, Option, none, some, List, [], ◌∷◌, if◌then◌else◌, ◌&&◌,
  ◌||◌, is_empty, Dict, arith, ok,
}
use roj.Agent.{AgentState}
use roj.Event.{session_restarted}
use roj.Session.{SessionState}
use roj.Session.Control.{is_reset, restart_agent, restart_agents}
use roj.Session.Reducer.{core_reducer}

pub record Recovery : Type 0 where
  pub reset_agent_ids : List String
  pub cleared_tool_agent_ids : List String

abbrev pub is_there {ℓ} : {A : Type ℓ} → Option A → Bool
is_there none = false
is_there (some a) = true

abbrev needs_reset : AgentState → Bool
needs_reset a = is_reset a.status || is_there a.inference_call

abbrev needs_clearing : AgentState → Bool
needs_clearing a = is_there a.executing_tool_call

-- The ids of the agents that pass the test, in the map's order.
unfoldable pub ids_where : (AgentState → Bool) → Dict AgentState → List String
ids_where p [] = []
ids_where p ((id, a) ∷ agents) = let rest = ids_where p agents in if p a then id ∷ rest else rest

unfoldable pub check_recovery_needed : SessionState → Option Recovery
unfolding ids_where
check_recovery_needed s =
    let reset = ids_where needs_reset s.agents in
    let cleared = ids_where needs_clearing s.agents in
    if is_empty reset && is_empty cleared
    then none
    else some (record { reset_agent_ids = reset; cleared_tool_agent_ids = cleared })

restart_agent-needs_reset : (a : AgentState) → needs_reset (restart_agent a) ≡ false
unfolding restart_agent
restart_agent-needs_reset a = ground arith

ids_where-needs_reset :
    (agents : Dict AgentState) → ids_where needs_reset (restart_agents agents) ≡ []
unfolding ids_where restart_agents
ids_where-needs_reset [] = refl
ids_where-needs_reset ((id, a) ∷ agents) =
    rw (restart_agent-needs_reset a) (ids_where-needs_reset agents)

ids_where-needs_clearing :
    (agents : Dict AgentState) → ids_where needs_clearing (restart_agents agents) ≡ []
unfolding ids_where restart_agents restart_agent
ids_where-needs_clearing [] = refl
ids_where-needs_clearing ((id, a) ∷ agents) = ids_where-needs_clearing agents

-- One restart is enough: applying `session_restarted`, with whatever lists of agents it carries,
-- never fails and leaves a session in which no recovery is needed.
pub check_recovery_needed-restarted :
    (s : SessionState) (id : String) (now : ℕ) (reset cleared : List String)
    → (t : SessionState) × (core_reducer s
          (record { session_id = id; timestamp = now; body = session_restarted reset cleared })
        ≡ ok t)
      × (check_recovery_needed t ≡ none)
unfolding core_reducer check_recovery_needed
check_recovery_needed-restarted s id now reset cleared = (
  record s { agents = restart_agents s.agents },
  refl,
  rw (ids_where-needs_reset s.agents, ids_where-needs_clearing s.agents),
)

restart_agent-settled :
    (a : AgentState) → needs_reset a ≡ false → needs_clearing a ≡ false → restart_agent a ≡ a
unfolding restart_agent
restart_agent-settled a h k = ground arith

restart_agents-settled :
    (agents : Dict AgentState)
    → is_empty (ids_where needs_reset agents) ≡ true
    → is_empty (ids_where needs_clearing agents) ≡ true
    → restart_agents agents ≡ agents
unfolding ids_where restart_agents
restart_agents-settled [] h k = refl
restart_agents-settled ((id, a) ∷ agents) h k =
    let here : restart_agent a ≡ a = restart_agent-settled a (ground arith) (ground arith) in
    let rest : restart_agents agents ≡ agents =
      restart_agents-settled agents (ground arith) (ground arith) in
    rw (here, rest)

-- A session that needs no recovery is left exactly as it was by a restart.
pub core_reducer-settled :
    (s : SessionState) (id : String) (now : ℕ) (reset cleared : List String)
    → check_recovery_needed s ≡ none
    → core_reducer s
        (record { session_id = id; timestamp = now; body = session_restarted reset cleared })
      ≡ ok s
unfolding core_reducer check_recovery_needed
core_reducer-settled s id now reset cleared h =
    let same : restart_agents s.agents ≡ s.agents =
      restart_agents-settled s.agents (ground arith) (ground arith) in
    rw same
