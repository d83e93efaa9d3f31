-- ===== src/Examples/Session.antt =====
-- The theorems on sessions, at small sessions.
use mathlib.Core.Option
use roj.Base.{
  ℕ, String, get_or, ◌≡◌, refl, false, none, some, List, [], ◌∷◌, map, take, lookup, insert, ok,
  map_ok,
}
use roj.Message.{plain}
use roj.Agent.{AgentState, paused, manual, create_agent_state}
use roj.Event.{DomainEvent, session_restarted}
use roj.Session.{SessionState, create_session_state, add_agent, update_agent}
use roj.Session.Turn.{on_inference_completed}
use roj.Session.Tools.{on_tool_done}
use roj.Session.Control.{on_agent_paused}
use roj.Session.Reducer.{
  core_reducer, reduce_body, reduce_events, reconstruct_session_state, spawned_agent, spawn,
  annotate,
}
use roj.Session.Fork.{rewrite_events_for_fork}
use roj.Session.Fork.Replay.{as_fork, reconstruct-rewrite_events_for_fork}
use roj.Session.Runs.{run_agent, lookup-reconstruct}
use roj.Session.Attempts.{
  Staged, Attempt, failed, retried, attempts_log, commit_log, Committed, reduce_events-attempts,
}
use roj.Session.ToolTurn.{Outcome, outcome_event, Answered, reduce_events-outcomes}
use roj.Session.Pause.{reduce_events-paused}
use roj.Session.Recovery.{check_recovery_needed, check_recovery_needed-restarted, ids_where}
use roj.Session.Sequences.{
  Request, reserve_all, numbers_of, count_up, first_seed, granted, numbers_of-reserve_all,
}
use roj.Session.Soundness.{IsSound, reconstruct-IsSound}
use roj.Examples.{
  event, created, spawned, pause, response, metrics, inference, tool_done, busy, paused_agent,
  session_of,
}

abbrev log : List DomainEvent
log = created ∷ spawned ∷ pause ∷ inference ∷ []

abbrev last_agent : AgentState
last_agent =
    on_inference_completed response metrics
      (on_agent_paused manual none false (spawned_agent "a1" "worker" none none))

abbrev final : SessionState
final = record (create_session_state "s1" "preset" 1) {
  agents = ("a1", last_agent) ∷ [];
  agent_counters = ("worker", 1) ∷ [];
}

log-final : reconstruct_session_state log ≡ ok (some final)
unfolding reconstruct_session_state reduce_events core_reducer reduce_body annotate spawn add_agent
    update_agent create_session_state spawned_agent create_agent_state lookup insert
log-final = refl

final-last_agent : lookup "a1" final.agents ≡ some last_agent
unfolding lookup
final-last_agent = refl

session_of-agent : (a : AgentState) → lookup "a1" (session_of a).agents ≡ some a
unfolding lookup
session_of-agent a = refl

reconstruct-rewrite_events_for_fork_example :
    reconstruct_session_state (rewrite_events_for_fork log 1 "s2" "s1")
    ≡ map_ok
        (Option.map (as_fork "s2" (record { session_id = "s1"; event_index = 1 })))
        (reconstruct_session_state (take 2 log))
reconstruct-rewrite_events_for_fork_example = reconstruct-rewrite_events_for_fork log 1 "s2" "s1"

lookup-reconstruct_example : lookup "a1" final.agents ≡ run_agent "a1" log none
lookup-reconstruct_example = lookup-reconstruct log final "a1" log-final

abbrev staged : Staged
staged = record { messages = []; llm_call_id = some "l1"; input_key = some "k1"; retried = false }

abbrev attempts : List Attempt
attempts = failed staged 5 6 "overloaded" ∷ retried staged 7 8 ∷ []

abbrev fresh : AgentState
fresh = create_agent_state "a1" "worker"

fresh-no_messages : fresh.pending_messages ≡ []
unfolding create_agent_state
fresh-no_messages = refl

reduce_events-attempts_example :
    (t : SessionState) × (c : AgentState) × (reduce_events
        (session_of fresh)
        (attempts_log "s1" "a1" attempts (commit_log "s1" "a1" staged response metrics 9 10))
      ≡ ok t)
    × (lookup "a1" t.agents ≡ some c)
    × Committed staged response fresh c
reduce_events-attempts_example =
    reduce_events-attempts (session_of fresh) fresh "s1" "a1" attempts staged response metrics 9 10
      (session_of-agent fresh) fresh-no_messages

abbrev second_failed : Outcome
second_failed = Outcome.failed "c2" 6 "no such file"

abbrev first_succeeded : Outcome
first_succeeded = Outcome.succeeded "c1" 7 (plain "text")

reduce_events-outcomes_example :
    (t : SessionState) × (c : AgentState) × (reduce_events
        (session_of busy)
        (map (outcome_event "s1" "a1") (second_failed ∷ first_succeeded ∷ []))
      ≡ ok t)
    × (lookup "a1" t.agents ≡ some c)
    × Answered (second_failed ∷ first_succeeded ∷ []) busy c
reduce_events-outcomes_example =
    reduce_events-outcomes (session_of busy) busy "s1" "a1" second_failed (first_succeeded ∷ [])
      (session_of-agent busy)

abbrev after_tool : SessionState
after_tool = session_of (on_tool_done "c1" 5 false (plain "done") paused_agent)

tool_done-after_tool : reduce_events (session_of paused_agent) (tool_done ∷ []) ≡ ok after_tool
unfolding reduce_events core_reducer reduce_body update_agent lookup insert create_session_state
tool_done-after_tool = refl

reduce_events-paused_example :
    (c : AgentState) × (lookup "a1" after_tool.agents ≡ some c) × (c.status ≡ paused)
reduce_events-paused_example =
    reduce_events-paused (session_of paused_agent) after_tool paused_agent "a1" (tool_done ∷ [])
      (session_of-agent paused_agent) refl (refl, tt) tool_done-after_tool

check_recovery_needed-restarted_example :
    (t : SessionState) × (core_reducer
        (session_of busy)
        (event 9 (session_restarted ("a1" ∷ []) []))
      ≡ ok t)
    × (check_recovery_needed t ≡ none)
check_recovery_needed-restarted_example =
    check_recovery_needed-restarted (session_of busy) "s1" 9 ("a1" ∷ []) []

busy-settled : check_recovery_needed (session_of busy) ≡ none
unfolding check_recovery_needed ids_where create_agent_state
busy-settled = refl

reconstruct-IsSound_example : IsSound last_agent
reconstruct-IsSound_example =
    reconstruct-IsSound log final "a1" last_agent log-final final-last_agent

abbrev ask : String → ℕ → Request
ask name seed = record { closed = false; name = name; seed = seed }

abbrev requests : List Request
requests = ask "mailbox.message" 4 ∷ ask "agent.worker" 1 ∷ ask "mailbox.message" 9 ∷ []

numbers_of-reserve_all_example :
    numbers_of "mailbox.message" (reserve_all requests [])
    ≡ count_up
        (get_or (lookup "mailbox.message" []) (first_seed "mailbox.message" requests))
        (granted "mailbox.message" requests)
numbers_of-reserve_all_example = numbers_of-reserve_all "mailbox.message" requests []
