-- ===== src/Session/Pause.antt =====
-- What can end a pause.
use roj.Base.{
  ℕ, ◌≡◌, refl, ap, ◌∙◌, String, Bool, true, false, Option, none, some, List, [], ◌∷◌, ◌=ₛ◌, arith,
  All, Bool-cases, inl, inr, lookup, ok,
}
use roj.Agent.{AgentState, paused}
use roj.Event.{
  EventBody, agent_spawned, agent_state_changed, agent_resumed, agent_conversation_spliced,
  inference_started, inference_failed, handler_completed, DomainEvent, agent_paused, tool_started,
  tool_completed, tool_failed, inference_completed, inference_retried, context_compacted,
  preamble_added, on_start, on_complete,
}
use roj.Session.{SessionState}
use roj.Session.Turn.{on_inference_completed, on_inference_retried}
use roj.Session.Tools.{on_tool_done, on_tool_started}
use roj.Session.Control.{
  on_agent_paused, on_context_compacted, on_preamble_added, on_start_completed,
  on_complete_completed, restart_agent,
}
use roj.Session.Reducer.{reduce_events}
use roj.Session.Projection.{Effect, no_agent, updates, spawns, restarts, effect, agent_after}
use roj.Session.Runs.{run_agent, lookup-reduce_events}

-- The events that set the status of `b` without looking at a pause.
abbrev pub may_end_pause : String → EventBody → Bool
may_end_pause b (agent_spawned id _ _ _) = id =ₛ b
may_end_pause b (agent_state_changed id _ _) = id =ₛ b
may_end_pause b (agent_resumed id) = id =ₛ b
may_end_pause b (agent_conversation_spliced id _ _ _) = id =ₛ b
may_end_pause b (inference_started e) = e.agent_id =ₛ b
may_end_pause b (inference_failed id _) = id =ₛ b
may_end_pause b _ = false

abbrev IsPaused : Option AgentState → Type 0
IsPaused none = ⊥
IsPaused (some a) = a.status ≡ paused

-- `f` keeps a pause, or the event is about another agent.
KeepsPause : String → Effect → Type 0
KeepsPause b (updates id f) =
    ((id =ₛ b) ≡ true) → (a : AgentState) → a.status ≡ paused → (f a).status ≡ paused
KeepsPause b (spawns id agent) = (id =ₛ b) ≡ false
KeepsPause b _ = Unit {0}

effect-KeepsPause :
    (b : String) (now : ℕ) (body : EventBody)
    → may_end_pause b body ≡ false
    → KeepsPause b (effect now body)
unfolding KeepsPause on_inference_completed on_inference_retried on_tool_done on_tool_started
    on_agent_paused on_context_compacted on_preamble_added on_start_completed on_complete_completed
    restart_agent
effect-KeepsPause b now (agent_spawned id _ _ _) h = h
effect-KeepsPause b now (agent_state_changed id _ _) h = λ e. cc
effect-KeepsPause b now (agent_resumed id) h = λ e. cc
effect-KeepsPause b now (agent_conversation_spliced id _ _ _) h = λ e. cc
effect-KeepsPause b now (inference_started x) h = λ e. cc
effect-KeepsPause b now (inference_failed id _) h = λ e. cc
effect-KeepsPause b now (handler_completed id on_start r) h = λ e a p. p
effect-KeepsPause b now (handler_completed id on_complete none) h = λ e a p. p
effect-KeepsPause b now (handler_completed id on_complete (some _)) h = tt
effect-KeepsPause b now (handler_completed id _ _) h = tt
effect-KeepsPause b now (preamble_added _ _) h = λ e a p. p
effect-KeepsPause b now (agent_paused _ _ _ _) h = λ e a p. refl
effect-KeepsPause b now (tool_started _ _ _ _) h = λ e a p. p
effect-KeepsPause b now (tool_completed _ _) h = λ e a p. ground arith
effect-KeepsPause b now (tool_failed _ _) h = λ e a p. ground arith
effect-KeepsPause b now (inference_completed _ _ _) h = λ e a p. ground arith
effect-KeepsPause b now (inference_retried _) h = λ e a p. ground arith
effect-KeepsPause b now (context_compacted _ _) h = λ e a p. p
effect-KeepsPause b now _ h = tt

agent_after-IsPaused :
    (b : String) (eff : Effect) (o : Option AgentState)
    → KeepsPause b eff
    → IsPaused o
    → IsPaused (agent_after eff b o)
unfolding KeepsPause restart_agent
agent_after-IsPaused b eff none k p = absurd p
agent_after-IsPaused b no_agent (some a) k p = p
agent_after-IsPaused b (updates id f) (some a) k p = elim (Bool-cases (id =ₛ b)) [
  | inl e ↦ rw e (k e a p)
  | inr e ↦ rw e p
]
agent_after-IsPaused b (spawns id agent) (some a) k p = rw k p
agent_after-IsPaused b restarts (some a) k p = ground arith

run_agent-IsPaused :
    (b : String) (es : List DomainEvent) (o : Option AgentState)
    → All (λ e. may_end_pause b e.body ≡ false) es
    → IsPaused o
    → IsPaused (run_agent b es o)
unfolding run_agent
run_agent-IsPaused b [] o k p = p
run_agent-IsPaused b (e ∷ es) o k p =
    run_agent-IsPaused b es _ k.1
      (agent_after-IsPaused b _ o (effect-KeepsPause b e.timestamp e.body k.0) p)

IsPaused-some :
    (o : Option AgentState) → IsPaused o → (a : AgentState) × (o ≡ some a) × (a.status ≡ paused)
IsPaused-some none p = absurd p
IsPaused-some (some a) p = (a, refl, p)

-- A paused agent stays paused through any replay in which no event for it resumes it, changes its
-- state by hand, splices its history, spawns it anew, starts an inference or reports a failed one.
-- So tool outcomes, a finished or retried inference, compaction and restarts all keep a pause.
pub reduce_events-paused :
    (s t : SessionState) (a : AgentState) (b : String) (es : List DomainEvent)
    → lookup b s.agents ≡ some a
    → a.status ≡ paused
    → All (λ e. may_end_pause b e.body ≡ false) es
    → reduce_events s es ≡ ok t
    → (c : AgentState) × (lookup b t.agents ≡ some c) × (c.status ≡ paused)
reduce_events-paused s t a b es found p k h =
    let (c, e, q) = IsPaused-some _ (run_agent-IsPaused b es (some a) k p) in
    (c, lookup-reduce_events s t es b h ∙ ap (run_agent b es) found ∙ e, q)
