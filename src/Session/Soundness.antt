-- ===== src/Session/Soundness.antt =====
-- What every agent of a replayed session satisfies, whatever the log holds.
use roj.Base.{
  ℕ, ◌≡◌, sym, subst, ◌∙◌, ◌⊎◌, String, Bool, true, false, Option, none, some, List, [], ◌∷◌, ◌==◌,
  arith, lookup, ok, or_zero,
}
use roj.Agent.{AgentState}
use roj.Event.{
  EventBody, agent_spawned, handler_completed, session_restarted, DomainEvent, on_start,
  on_complete, agent_state_changed, preamble_added, agent_paused, agent_resumed,
  agent_conversation_spliced, tool_started, tool_completed, tool_failed, inference_started,
  inference_completed, inference_failed, inference_retried, context_compacted,
}
use roj.Session.{SessionState}
use roj.Session.Turn.{
  on_inference_started, on_inference_completed, on_inference_failed, on_inference_retried,
}
use roj.Session.Tools.{on_tool_done, on_tool_started}
use roj.Session.Control.{
  on_agent_paused, on_agent_resumed, on_state_changed, on_conversation_spliced,
  on_context_compacted, on_preamble_added, on_start_completed, on_complete_completed, restart_agent,
}
use roj.Session.Reducer.{spawned_agent, reconstruct_session_state}
use roj.Session.Projection.{Effect, no_agent, updates, spawns, restarts, effect, agent_after}
use roj.Session.Runs.{run_agent, lookup-reconstruct}

abbrev absent {ℓ} : {A : Type ℓ} → Option A → Bool
absent none = true
absent (some a) = false

-- A failure time is recorded exactly while failures are counted, and a call is never both in
-- flight and interrupted.
pub record IsSound (a : AgentState) : Type 0 where
  pub failures :
      absent a.last_inference_failure_at ≡ (or_zero a.consecutive_inference_failures == 0)
  pub one_call : (a.inference_call ≡ none) ⊎ (a.interrupted_inference ≡ none)

abbrev pub SoundOption : Option AgentState → Type 0
SoundOption none = Unit {0}
SoundOption (some a) = IsSound a

abbrev Keeps : Effect → Type 0
Keeps no_agent = Unit {0}
Keeps (updates id f) = (a : AgentState) → IsSound a → IsSound (f a)
Keeps (spawns id agent) = IsSound agent
Keeps restarts = (a : AgentState) → IsSound a → IsSound (restart_agent a)

effect-Keeps : (now : ℕ) (body : EventBody) → Keeps (effect now body)
unfolding on_inference_started on_inference_completed on_inference_failed on_inference_retried
    on_tool_done on_tool_started on_agent_paused on_agent_resumed on_state_changed
    on_conversation_spliced on_context_compacted on_preamble_added on_start_completed
    on_complete_completed restart_agent spawned_agent
effect-Keeps now (agent_spawned id name parent input) = ground arith
effect-Keeps now (session_restarted _ _) = λ a v. ground arith
effect-Keeps now (handler_completed id on_start r) = λ a v. ground arith
effect-Keeps now (handler_completed id on_complete none) = λ a v. ground arith
effect-Keeps now (handler_completed id on_complete (some _)) = tt
effect-Keeps now (handler_completed id _ _) = tt
effect-Keeps now (agent_state_changed _ _ _) = λ a v. ground arith
effect-Keeps now (preamble_added _ _) = λ a v. ground arith
effect-Keeps now (agent_paused _ _ _ _) = λ a v. ground arith
effect-Keeps now (agent_resumed _) = λ a v. ground arith
effect-Keeps now (agent_conversation_spliced _ _ _ _) = λ a v. ground arith
effect-Keeps now (tool_started _ _ _ _) = λ a v. ground arith
effect-Keeps now (tool_completed _ _) = λ a v. ground arith
effect-Keeps now (tool_failed _ _) = λ a v. ground arith
effect-Keeps now (inference_started _) = λ a v. ground arith
effect-Keeps now (inference_completed _ _ _) = λ a v. ground arith
effect-Keeps now (inference_failed _ _) = λ a v. ground arith
effect-Keeps now (inference_retried _) = λ a v. ground arith
effect-Keeps now (context_compacted _ _) = λ a v. ground arith
effect-Keeps now _ = tt

agent_after-Sound :
    (eff : Effect) (b : String) (o : Option AgentState)
    → Keeps eff
    → SoundOption o
    → SoundOption (agent_after eff b o)
agent_after-Sound no_agent b o k v = v
agent_after-Sound (updates id f) b none k v = ground arith
agent_after-Sound (updates id f) b (some a) k v = ground (arith, k a v)
agent_after-Sound (spawns id agent) b o k v = ground arith
agent_after-Sound restarts b none k v = tt
agent_after-Sound restarts b (some a) k v = k a v

run_agent-Sound :
    (b : String) (es : List DomainEvent) (o : Option AgentState)
    → SoundOption o
    → SoundOption (run_agent b es o)
unfolding run_agent
run_agent-Sound b [] o v = v
run_agent-Sound b (e ∷ es) o v =
    run_agent-Sound b es _ (agent_after-Sound _ b o (effect-Keeps e.timestamp e.body) v)

-- In a session that is rebuilt from any log, every agent has a failure time recorded exactly while
-- it counts failures, and no agent has a call in flight and an interrupted call at once.
pub reconstruct-IsSound :
    (es : List DomainEvent) (t : SessionState) (b : String) (a : AgentState)
    → reconstruct_session_state es ≡ ok (some t)
    → lookup b t.agents ≡ some a
    → IsSound a
reconstruct-IsSound es t b a h e =
    subst SoundOption (sym (lookup-reconstruct es t b h) ∙ e) (run_agent-Sound b es none tt)
