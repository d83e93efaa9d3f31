-- ===== src/Session/Fork/Replay.antt =====
-- The log of a fork rebuilds the state that the source session had at the index.
use mathlib.Core.Option
use roj.Base.{
  ℕ, suc, ◌≡◌, refl, String, Option, none, some, List, [], ◌∷◌, map, take, Option-cases, ap, ◌∙◌,
  inl, inr, lookup, Result, ok, err, map_ok, Result-cases, ◌>>=◌,
}
use roj.Message.{Json}
use roj.Agent.{AgentState}
use roj.Event.{
  EventBody, session_created, session_closed, session_reopened, session_restarted,
  session_metadata_set, session_overrides_set, session_handler_started, session_handler_completed,
  agent_spawned, handler_started, handler_completed, agent_input_consumed, communicator_linked,
  auxiliary_inference_completed, mailbox_message, mailbox_consumed, other, DomainEvent, ForkOrigin,
  HandlerName, on_start, on_complete,
}
use roj.Session.{SessionState, ReplayError, update_agent, create_session_state}
use roj.Session.Reducer.{
  reduce_body, core_reducer, reduce_events, reconstruct_session_state, handler_done, annotate,
  spawn, set_overrides,
}
use roj.Session.Fork.{fork_body, fork_event, rewrite_events_for_fork}

-- The state with the identity of the fork.
abbrev pub as_fork : String → ForkOrigin → SessionState → SessionState
as_fork new_id origin s = record s { id = new_id; forked_from = some origin }

module _ (new_id : String) (origin : ForkOrigin) where
  update_agent-as_fork :
      (s : SessionState) (id : String) (f : AgentState → AgentState)
      → update_agent (as_fork new_id origin s) id f
        ≡ map_ok (as_fork new_id origin) (update_agent s id f)
  unfolding update_agent
  update_agent-as_fork s id f = elim (Option-cases (lookup id s.agents)) [
    | inl e ↦ rw (e, update_agent)
    | inr (a, e) ↦ rw (e, update_agent)
  ]

  handler_done-as_fork :
      (s : SessionState) (id : String) (name : HandlerName) (result : Option Json)
      → handler_done id name result (as_fork new_id origin s)
        ≡ map_ok (as_fork new_id origin) (handler_done id name result s)
  unfolding handler_done
  handler_done-as_fork s id on_start result = update_agent-as_fork s id _
  handler_done-as_fork s id on_complete none = update_agent-as_fork s id _
  handler_done-as_fork s id on_complete (some _) = refl
  handler_done-as_fork s id _ result = refl

  -- No case of the reducer reads the identity of the session.
  reduce_body-as_fork :
      (s : SessionState) (now : ℕ) (body : EventBody)
      → reduce_body (as_fork new_id origin s) now (fork_body origin body)
        ≡ map_ok (as_fork new_id origin) (reduce_body s now body)
  unfolding reduce_body annotate spawn set_overrides
  reduce_body-as_fork s now (session_created _ _ _) = refl
  reduce_body-as_fork s now session_closed = refl
  reduce_body-as_fork s now session_reopened = refl
  reduce_body-as_fork s now (session_restarted _ _) = refl
  reduce_body-as_fork s now (session_metadata_set _ _) = refl
  reduce_body-as_fork s now (session_overrides_set _ _) = refl
  reduce_body-as_fork s now (session_handler_started _ _) = refl
  reduce_body-as_fork s now (session_handler_completed _ _ _ _) = refl
  reduce_body-as_fork s now (agent_spawned _ _ _ _) = refl
  reduce_body-as_fork s now (handler_started _ _) = refl
  reduce_body-as_fork s now (handler_completed id name result) =
      handler_done-as_fork s id name result
  reduce_body-as_fork s now (agent_input_consumed _ _) = refl
  reduce_body-as_fork s now (communicator_linked _ _) = refl
  reduce_body-as_fork s now (auxiliary_inference_completed _ _) = refl
  reduce_body-as_fork s now (mailbox_message _ _ _) = refl
  reduce_body-as_fork s now (mailbox_consumed _ _) = refl
  reduce_body-as_fork s now (other _) = refl
  reduce_body-as_fork s now _ = update_agent-as_fork s _ _

  reduce_events-as_fork :
      (s : SessionState) (es : List DomainEvent)
      → reduce_events (as_fork new_id origin s) (map (fork_event new_id origin) es)
        ≡ map_ok (as_fork new_id origin) (reduce_events s es)
  unfolding reduce_events core_reducer fork_event
  reduce_events-as_fork s [] = refl
  reduce_events-as_fork s (e ∷ es) = elim (Result-cases (reduce_body s e.timestamp e.body)) [
    | inl (t, ok_t) ↦
        rw (reduce_body-as_fork s e.timestamp e.body, ok_t) (reduce_events-as_fork t es)
    | inr (x, err_x) ↦ rw (reduce_body-as_fork s e.timestamp e.body, err_x)
  ]

  some_state :
      (r : Result ReplayError SessionState)
      → (map_ok (as_fork new_id origin) r >>= λ final. ok (some final))
        ≡ map_ok (Option.map (as_fork new_id origin)) (r >>= λ final. ok (some final))
  some_state (ok s) = refl
  some_state (err x) = refl

  reconstruct-as_fork_cons :
      (id : String) (now : ℕ) (body : EventBody) (es : List DomainEvent)
      → let e : DomainEvent = record { session_id = id; timestamp = now; body = body } in
        reconstruct_session_state (map (fork_event new_id origin) (e ∷ es))
        ≡ map_ok (Option.map (as_fork new_id origin)) (reconstruct_session_state (e ∷ es))
  unfolding reconstruct_session_state fork_event core_reducer reduce_body annotate
      create_session_state
  reconstruct-as_fork_cons id now (session_created preset dir old) es =
      let s = annotate dir old (create_session_state id preset now) in
      ap (λ r. r >>= λ final. ok (some final)) (reduce_events-as_fork s es)
      ∙ some_state (reduce_events s es)
  reconstruct-as_fork_cons id now _ es = refl

  reconstruct-as_fork :
      (es : List DomainEvent)
      → reconstruct_session_state (map (fork_event new_id origin) es)
        ≡ map_ok (Option.map (as_fork new_id origin)) (reconstruct_session_state es)
  unfolding reconstruct_session_state
  reconstruct-as_fork [] = refl
  reconstruct-as_fork (e ∷ es) = reconstruct-as_fork_cons e.session_id e.timestamp e.body es

-- The log that a fork of a session starts with rebuilds the state that the first `index + 1`
-- events of the source rebuild, with the new id and the origin of the fork, and nothing else
-- changed; it fails to rebuild exactly if they do, with the same error.
pub reconstruct-rewrite_events_for_fork :
    (events : List DomainEvent) (index : ℕ) (new_id source_id : String)
    → reconstruct_session_state (rewrite_events_for_fork events index new_id source_id)
      ≡ map_ok
          (Option.map (as_fork new_id (record { session_id = source_id; event_index = index })))
          (reconstruct_session_state (take (suc index) events))
unfolding rewrite_events_for_fork
reconstruct-rewrite_events_for_fork events index new_id source_id =
    reconstruct-as_fork new_id _ (take (suc index) events)
