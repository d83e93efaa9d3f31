-- ===== src/Session/Runs.antt =====
-- Replay of a log by one agent alone, and its agreement with replay of the session.
use roj.Base.{
  All, ℕ, ◌≡◌, refl, sym, ap, ◌∙◌, inl, inr, String, Option, none, some, List, [], ◌∷◌, arith,
  eq_iff, eq_refl, Result-cases, lookup, Result, ok, err, ◌>>=◌,
}
use roj.Agent.{AgentState}
use roj.Event.{EventBody, session_created, DomainEvent}
use roj.Session.{SessionState, ReplayError, agent_not_found, create_session_state}
use roj.Session.Reducer.{reduce_body, core_reducer, reduce_events, reconstruct_session_state}
use roj.Session.Projection.{
  Effect, Steps, Steps-ok, absent, agent_after, effect, missing, reduce_body-Steps, updates,
}

-- One agent alone, run over a log.
unfoldable pub run_agent : String → List DomainEvent → Option AgentState → Option AgentState
run_agent b [] before = before
run_agent b (e ∷ es) before = run_agent b es (agent_after (effect e.timestamp e.body) b before)

pub lookup-reduce_events :
    (s t : SessionState) (es : List DomainEvent) (b : String)
    → reduce_events s es ≡ ok t
    → lookup b t.agents ≡ run_agent b es (lookup b s.agents)
unfolding reduce_events run_agent core_reducer
lookup-reduce_events s t [] b e = ground arith
lookup-reduce_events s t (e ∷ es) b r = elim (Result-cases (reduce_body s e.timestamp e.body)) [
  | inl (u, ok_u) ↦
      lookup-reduce_events u t es b (rw ok_u at r)
      ∙ ap (run_agent b es) (
          Steps-ok s u (effect e.timestamp e.body) _ (reduce_body-Steps s e.timestamp e.body) ok_u
            b)
  | inr (x, err_x) ↦ cc (rw err_x at r)
]

final_state :
    (r : Result ReplayError SessionState) (t : SessionState)
    → (r >>= λ final. ok (some final)) ≡ ok (some t)
    → r ≡ ok t
final_state (ok u) t h = ground arith
final_state (err x) t h = cc

reconstruct_cons :
    (id : String) (now : ℕ) (body : EventBody) (es : List DomainEvent) (t : SessionState)
    → let e : DomainEvent = record { session_id = id; timestamp = now; body = body } in
      reconstruct_session_state (e ∷ es) ≡ ok (some t)
      → (preset : String) × (reduce_events (create_session_state id preset now) (e ∷ es) ≡ ok t)
unfolding reconstruct_session_state
reconstruct_cons id now (session_created preset _ _) es t h = (preset, final_state _ t h)
reconstruct_cons id now _ es t h = cc

-- A session that was rebuilt comes from an empty one by its whole log.
pub reconstruct-reduce_events :
    (es : List DomainEvent) (t : SessionState)
    → reconstruct_session_state es ≡ ok (some t)
    → (id preset : String) × (now : ℕ) × (reduce_events (create_session_state id preset now) es
        ≡ ok t)
unfolding reconstruct_session_state
reconstruct-reduce_events [] t h = cc
reconstruct-reduce_events (e ∷ es) t h =
    let (preset, r) = reconstruct_cons e.session_id e.timestamp e.body es t h in
    (e.session_id, preset, e.timestamp, r)

-- Replay works agent by agent: in a session that is rebuilt from a log, the state under an agent's
-- id is what the events that name that agent, and the restarts, make of it, starting from nothing;
-- no other event and no other agent matters.
pub lookup-reconstruct :
    (es : List DomainEvent) (t : SessionState) (b : String)
    → reconstruct_session_state es ≡ ok (some t)
    → lookup b t.agents ≡ run_agent b es none
unfolding create_session_state lookup
lookup-reconstruct es t b h =
    let (id, preset, now, r) = reconstruct-reduce_events es t h in
    lookup-reduce_events (create_session_state id preset now) t es b r

-- An event that updates the agent `b`.
abbrev pub Owned : String → Effect → Type 0
Owned b (updates id f) = id ≡ b
Owned b _ = ⊥

Owned-some :
    (b : String) (eff : Effect) (a : AgentState)
    → Owned b eff
    → (c : AgentState) × (agent_after eff b (some a) ≡ some c)
Owned-some b (updates id f) a h = (f a, rw ((eq_iff id b).1 h))
Owned-some b _ a h = absurd h

Owned-present :
    (s : SessionState) (b : String) (eff : Effect) (a : AgentState)
    → Owned b eff
    → lookup b s.agents ≡ some a
    → missing eff s.agents ≡ none
Owned-present s b (updates id f) a h e =
    let found : lookup id s.agents ≡ some a = rw h e in ap (absent id) found
Owned-present s b _ a h e = absurd h

Steps-present :
    (s : SessionState) (eff : Effect) (r : Result ReplayError SessionState)
    → Steps s eff r
    → missing eff s.agents ≡ none
    → (t : SessionState) × (r ≡ ok t)
Steps-present s eff (ok t) st h = (t, refl)
Steps-present s eff (err (agent_not_found id)) st h = cc
Steps-present s eff (err _) st h = absurd st

-- A log of updates of one agent that is there never fails.
pub reduce_events-Owned :
    (s : SessionState) (b : String) (es : List DomainEvent) (a : AgentState)
    → All (λ e. Owned b (effect e.timestamp e.body)) es
    → lookup b s.agents ≡ some a
    → (t : SessionState) × (reduce_events s es ≡ ok t)
      × (lookup b t.agents ≡ run_agent b es (some a))
unfolding reduce_events run_agent core_reducer
reduce_events-Owned s b [] a own found = (s, refl, found)
reduce_events-Owned s b (e ∷ es) a own found =
    let eff = effect e.timestamp e.body in
    let st = reduce_body-Steps s e.timestamp e.body in
    let (u, ok_u) = Steps-present s eff _ st (Owned-present s b eff a own.0 found) in
    let (c, after) = Owned-some b eff a own.0 in
    let here : lookup b u.agents ≡ some c =
      Steps-ok s u eff _ st ok_u b ∙ ap (agent_after eff b) found ∙ after in
    let (t, ok_t, final) = reduce_events-Owned u b es c own.1 here in
    (t, rw ok_u ok_t, final ∙ ap (run_agent b es) (sym after))

pub run_agent-updates :
    (b : String) (es : List DomainEvent) (f : AgentState → AgentState) (a : AgentState)
    → run_agent b es (agent_after (updates b f) b (some a)) ≡ run_agent b es (some (f a))
run_agent-updates b es f a = rw (eq_refl b)
