-- ===== src/Session/ToolTurn.antt =====
-- The tool phase of a turn: outcomes of the pending calls, in any order.
use mathlib.Core.List.{map-append}
use roj.Base.{
  ℕ, ◌≡◌, refl, sym, ap, ◌∙◌, String, Bool, true, false, not, none, some, List, [], ◌∷◌, ◌++◌, map,
  All, any, keep, is_empty, if◌then◌else◌, ◌=ₛ◌, arith, lookup, ok, append_assoc, append-nil,
}
use roj.Message.{ToolCall, Content, plain}
use roj.Agent.{AgentState, AgentStatus, pending, tool_exec, PendingToolResult}
use roj.Event.{DomainEvent, ToolDone, tool_completed, tool_failed}
use roj.Session.{SessionState}
use roj.Session.Turn.{unless_paused}
use roj.Session.Tools.{on_tool_done, without_call, tool_result}
use roj.Session.Reducer.{reduce_events}
use roj.Session.Projection.{effect}
use roj.Session.Runs.{run_agent, Owned, reduce_events-Owned, run_agent-updates}

pub data Outcome : Type 0 where
  succeeded : (call_id : String) (at_time : ℕ) → Content → Outcome
  failed : (call_id : String) (at_time : ℕ) → String → Outcome

abbrev pub call_of : Outcome → String
call_of (succeeded call _ _) = call
call_of (failed call _ _) = call

abbrev done : String → String → ToolDone
done b call = record { agent_id = b; tool_call_id = call; workspace_ref = none; session_ref = none }

abbrev pub outcome_event : String → String → Outcome → DomainEvent
outcome_event id b (succeeded call t content) = record {
  session_id = id;
  timestamp = t;
  body = tool_completed (done b call) content;
}
outcome_event id b (failed call t error) = record {
  session_id = id;
  timestamp = t;
  body = tool_failed (done b call) error;
}

abbrev apply_outcome : Outcome → AgentState → AgentState
apply_outcome (succeeded call t content) = on_tool_done call t false content
apply_outcome (failed call t error) = on_tool_done call t true (plain error)

-- The calls that none of the outcomes answers.
abbrev pub unanswered : List Outcome → List ToolCall → List ToolCall
unanswered outs = keep (λ tc. not (any (λ o. tc.id =ₛ call_of o) outs))

abbrev ids : List PendingToolResult → List String
ids = map λ r. r.tool_call_id

pub record Answered (outs : List Outcome) (a c : AgentState) : Type 0 where
  pub calls : c.pending_tool_calls ≡ unanswered outs a.pending_tool_calls
  pub results : ids c.pending_tool_results ≡ ids a.pending_tool_results ++ map call_of outs
  pub status :
      c.status
      ≡ unless_paused a.status
          (if is_empty (unanswered outs a.pending_tool_calls) then pending else tool_exec)
  pub history : c.conversation_history ≡ a.conversation_history

run_outcomes : List Outcome → AgentState → AgentState
run_outcomes [] a = a
run_outcomes (o ∷ outs) a = run_outcomes outs (apply_outcome o a)

run_agent-outcomes :
    (id b : String) (outs : List Outcome) (a : AgentState)
    → run_agent b (map (outcome_event id b) outs) (some a) ≡ some (run_outcomes outs a)
unfolding run_agent run_outcomes
run_agent-outcomes id b [] a = refl
run_agent-outcomes id b (succeeded call t content ∷ outs) a =
    run_agent-updates b (map (outcome_event id b) outs) (on_tool_done call t false content) a
    ∙ run_agent-outcomes id b outs _
run_agent-outcomes id b (failed call t error ∷ outs) a =
    run_agent-updates b (map (outcome_event id b) outs) (on_tool_done call t true (plain error)) a
    ∙ run_agent-outcomes id b outs _

keep_keep :
    (o : Outcome) (outs : List Outcome) (calls : List ToolCall)
    → unanswered outs (without_call (call_of o) calls) ≡ unanswered (o ∷ outs) calls
keep_keep o outs [] = refl
keep_keep o outs (tc ∷ calls) = ground (arith, keep_keep o outs calls)

unless_paused_twice :
    (s : AgentStatus) (p q : Bool)
    → unless_paused
        (unless_paused s (if p then pending else tool_exec))
        (if q then pending else tool_exec)
      ≡ unless_paused s (if q then pending else tool_exec)
unless_paused_twice s p q = ground arith

unanswered-nil : (calls : List ToolCall) → unanswered [] calls ≡ calls
unanswered-nil [] = refl
unanswered-nil (tc ∷ calls) = ap (◌∷◌ tc) (unanswered-nil calls)

run_outcomes-calls :
    (outs : List Outcome) (a : AgentState)
    → (run_outcomes outs a).pending_tool_calls ≡ unanswered outs a.pending_tool_calls
unfolding run_outcomes on_tool_done
run_outcomes-calls [] a = sym (unanswered-nil a.pending_tool_calls)
run_outcomes-calls (succeeded call t content ∷ outs) a =
    run_outcomes-calls outs _ ∙ keep_keep (succeeded call t content) outs a.pending_tool_calls
run_outcomes-calls (failed call t error ∷ outs) a =
    run_outcomes-calls outs _ ∙ keep_keep (failed call t error) outs a.pending_tool_calls

ids-append : (xs ys : List PendingToolResult) → ids (xs ++ ys) ≡ ids xs ++ ids ys
ids-append xs ys = map-append _ xs ys

run_outcomes-results :
    (outs : List Outcome) (a : AgentState)
    → ids (run_outcomes outs a).pending_tool_results
      ≡ ids a.pending_tool_results ++ map call_of outs
unfolding run_outcomes on_tool_done tool_result
run_outcomes-results [] a = sym (append-nil _)
run_outcomes-results (succeeded call t content ∷ outs) a =
    run_outcomes-results outs _ ∙ simp (ids-append a.pending_tool_results, append_assoc)
run_outcomes-results (failed call t error ∷ outs) a =
    run_outcomes-results outs _ ∙ simp (ids-append a.pending_tool_results, append_assoc)

run_outcomes-history :
    (outs : List Outcome) (a : AgentState)
    → (run_outcomes outs a).conversation_history ≡ a.conversation_history
unfolding run_outcomes on_tool_done
run_outcomes-history [] a = refl
run_outcomes-history (succeeded call t content ∷ outs) a = run_outcomes-history outs _
run_outcomes-history (failed call t error ∷ outs) a = run_outcomes-history outs _

abbrev status_after : AgentStatus → List ToolCall → AgentStatus
status_after before calls = unless_paused before (if is_empty calls then pending else tool_exec)

apply_outcome-status :
    (o : Outcome) (a : AgentState)
    → (apply_outcome o a).status
      ≡ status_after a.status (without_call (call_of o) a.pending_tool_calls)
unfolding on_tool_done
apply_outcome-status (succeeded call t content) a = refl
apply_outcome-status (failed call t error) a = refl

apply_outcome-calls :
    (o : Outcome) (a : AgentState)
    → (apply_outcome o a).pending_tool_calls ≡ without_call (call_of o) a.pending_tool_calls
unfolding on_tool_done
apply_outcome-calls (succeeded call t content) a = refl
apply_outcome-calls (failed call t error) a = refl

run_outcomes-status :
    (o : Outcome) (outs : List Outcome) (a : AgentState)
    → (run_outcomes (o ∷ outs) a).status
      ≡ status_after a.status (unanswered (o ∷ outs) a.pending_tool_calls)
unfolding run_outcomes
run_outcomes-status o [] a =
    apply_outcome-status o a
    ∙ ap (status_after a.status) (sym (unanswered-nil _) ∙ keep_keep o [] a.pending_tool_calls)
run_outcomes-status o (o' ∷ outs) a =
    run_outcomes-status o' outs (apply_outcome o a)
    ∙ rw
        (
          apply_outcome-status o a,
          apply_outcome-calls o a,
          keep_keep o (o' ∷ outs) a.pending_tool_calls,
        )
        (unless_paused_twice a.status _ _)

outcomes-Owned :
    (id b : String) (outs : List Outcome)
    → All (λ e. Owned b (effect e.timestamp e.body)) (map (outcome_event id b) outs)
outcomes-Owned id b [] = tt
outcomes-Owned id b (succeeded call t content ∷ outs) = (refl, outcomes-Owned id b outs)
outcomes-Owned id b (failed call t error ∷ outs) = (refl, outcomes-Owned id b outs)

-- After one or more tool outcomes for an agent, in any order, replay succeeds; the calls that no
-- outcome answers are still pending, in order; there is one more result per outcome, in the order
-- of the outcomes; the history is unchanged; and the agent is pending when no call is left, still
-- executing tools otherwise, unless it was paused, which it then stays.
pub reduce_events-outcomes :
    (s : SessionState) (a : AgentState) (id b : String) (o : Outcome) (outs : List Outcome)
    → lookup b s.agents ≡ some a
    → (t : SessionState) × (c : AgentState) × (reduce_events s (map (outcome_event id b) (o ∷ outs))
        ≡ ok t)
      × (lookup b t.agents ≡ some c)
      × Answered (o ∷ outs) a c
reduce_events-outcomes s a id b o outs found =
    let log = map (outcome_event id b) (o ∷ outs) in
    let (t, ok_t, final) = reduce_events-Owned s b log a (outcomes-Owned id b (o ∷ outs)) found in
    (
      t,
      run_outcomes (o ∷ outs) a,
      ok_t,
      final ∙ run_agent-outcomes id b (o ∷ outs) a,
      record {
        calls = run_outcomes-calls (o ∷ outs) a;
        results = run_outcomes-results (o ∷ outs) a;
        status = run_outcomes-status o outs a;
        history = run_outcomes-history (o ∷ outs) a;
      },
    )
