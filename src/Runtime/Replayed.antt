-- ===== src/Runtime/Replayed.antt =====
-- The agent's state as the replay of the events that the runtime emits.
use mathlib.Core.Option
use roj.Base.{ℕ, ◌≡◌, refl, String, Option, none, some, List, [], ◌∷◌, ◌=ₛ◌, Bool-cases, inl, inr}
use roj.Message.{ToolCall, Json}
use roj.Agent.{AgentState}
use roj.Event.{HandlerName, on_start, on_complete}
use roj.Session.Control.{on_agent_paused, on_start_completed, on_complete_completed}
use roj.Session.Projection.{agent_after, effect, updates, handler_effect}
use roj.Runtime.{Effect, emitted, Trace, Runtime}
use roj.Runtime.Hooks.Quiet.{IsHookEffect, ran_hook, hook_done, hook_paused}

module _ (b : String) (clock : Trace → ℕ) (start : Option AgentState) where
  unfoldable pub replay : Trace → Option AgentState
  replay [] = start
  replay (emitted body ∷ t) = agent_after (effect (clock t) body) b (replay t)
  replay (_ ∷ t) = replay t

abbrev pub calls_of : Option AgentState → List ToolCall
calls_of none = []
calls_of (some a) = a.pending_tool_calls

-- The store holds what the session's reducer makes of the events that the runtime emits.
pub record Replays (r : Runtime) (start : Option AgentState) : Type 0 where
  pub law : (t : Trace) → r.state t ≡ replay r.id r.clock start t

pub calls_of-updates :
    (id b : String) (f : AgentState → AgentState) (o : Option AgentState)
    → ((a : AgentState) → (f a).pending_tool_calls ≡ a.pending_tool_calls)
    → calls_of (agent_after (updates id f) b o) ≡ calls_of o
calls_of-updates id b f o h = elim (Bool-cases (id =ₛ b)) [
  | inl e ↦ rw (agent_after, e) (mapped o)
  | inr e ↦ rw (agent_after, e) refl
]
  where
    mapped : (o : Option AgentState) → calls_of (Option.map f o) ≡ calls_of o
    mapped none = refl
    mapped (some a) = h a

calls_of-handler :
    (id b : String) (name : HandlerName) (result : Option Json) (o : Option AgentState)
    → calls_of (agent_after (handler_effect id name result) b o) ≡ calls_of o
unfolding on_start_completed on_complete_completed
calls_of-handler id b on_start result o = calls_of-updates id b on_start_completed o (λ a. refl)
calls_of-handler id b on_complete none o = calls_of-updates id b on_complete_completed o (λ a. refl)
calls_of-handler id b on_complete (some x) o = refl
calls_of-handler id b _ result o = refl

module _ (b : String) (clock : Trace → ℕ) (start : Option AgentState) where
  pub pending_quiet :
      (x : Effect) (t : Trace)
      → IsHookEffect x
      → calls_of (replay b clock start (x ∷ t)) ≡ calls_of (replay b clock start t)
  unfolding replay on_agent_paused
  pending_quiet _ t (ran_hook name plugin) = refl
  pending_quiet _ t (hook_done id name result) =
      calls_of-handler id b name result (replay b clock start t)
  pending_quiet _ t (hook_paused id reason message resumes) =
      calls_of-updates id b (on_agent_paused reason message resumes) (replay b clock start t)
        (λ a. refl)
