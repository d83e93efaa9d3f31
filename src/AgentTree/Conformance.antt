-- ===== src/AgentTree/Conformance.antt =====
-- Every event keeps the tree and the session in step.
use mathlib.Core.Option
use roj.Base.{
  ℕ, ◌≡◌, refl, sym, subst, String, Bool, true, false, Option, none, some, List, [], ◌∷◌,
  if◌then◌else◌, ◌=ₛ◌, length, Dict, lookup, ok,
}
use roj.Message.{plain, Json}
use roj.Agent.{AgentState, AgentStatus, inferring, errored, paused}
use roj.Event.{
  EventBody, agent_spawned, agent_state_changed, inference_started, inference_completed,
  inference_failed, inference_retried, tool_started, tool_completed, tool_failed, agent_paused,
  agent_resumed, session_restarted, mailbox_message, mailbox_consumed, context_compacted,
  agent_conversation_spliced, handler_completed, preamble_added, on_start, on_complete, DomainEvent,
}
use roj.Session.{SessionState}
use roj.Session.Turn.{
  on_inference_started, on_inference_completed, on_inference_failed, on_inference_retried,
}
use roj.Session.Tools.{on_tool_done, on_tool_started}
use roj.Session.Control.{
  on_agent_paused, on_agent_resumed, on_state_changed, on_conversation_spliced,
  on_context_compacted, on_preamble_added, on_start_completed, on_complete_completed, restart_agent,
}
use roj.Session.Reducer.{spawned_agent, reconstruct_session_state}
use roj.Session.Projection.{effect, agent_after}
use roj.Session.Runs.{run_agent, lookup-reconstruct}
use roj.AgentTree.{
  AgentTreeEntry, with_status, entry_completed, entry_retried, entry_executing, entry_tool_done,
  entry_resumed, entry_restarted, entry_mailed, entry_consumed, apply_event_to_agent_tree,
  agent_tree, spawned_entry,
}
use roj.AgentTree.Entries.{entry_after, lookup-apply_event_to_agent_tree}
use roj.AgentTree.Mirror.{
  agent_view, unseen-Mirrors, Shown, Orderly, OrderlyRun, both-Shown, agent_only-Shown,
  entry_only-Shown,
}
use roj.AgentTree.Updates.{
  with_status-Mirrors, completed-Mirrors, retried-Mirrors, executing-Mirrors, tool_done-Mirrors,
  resumed-Mirrors, spliced-Mirrors, restarted-Mirrors,
}

spawned-Shown :
    (c : Bool) (id name : String) (parent : Option String) (input : Option Json)
    (oe : Option AgentTreeEntry) (oa : Option AgentState)
    → Shown oe oa
    → Shown
        (if c then some (spawned_entry id name parent) else oe)
        (if c then some (spawned_agent id name parent input) else oa)
unfolding spawned_agent
spawned-Shown false id name parent input oe oa h = h
spawned-Shown true id name parent input oe oa h = record {
  definition_name = refl;
  parent_id = refl;
  status = refl;
  calls = refl;
  executing = refl;
}

restarted-Shown :
    (oe : Option AgentTreeEntry) (oa : Option AgentState)
    → Shown oe oa
    → Shown (Option.map entry_restarted oe) (Option.map restart_agent oa)
restarted-Shown none none h = tt
restarted-Shown (some e) (some a) h = restarted-Mirrors e a h
restarted-Shown none (some a) h = absurd h
restarted-Shown (some e) none h = absurd h

-- What `Orderly` says of the agent that is there.
Orderly-at :
    (b : String) (body : EventBody) (oa : Option AgentState) (a : AgentState)
    → oa ≡ some a
    → Orderly b body oa
    → Orderly b body (some a)
Orderly-at b body oa a e h = subst (Orderly b body) e h

module _ (b : String) (now : ℕ) (oe : Option AgentTreeEntry) (oa : Option AgentState) where
  status-Shown :
      (id : String) (s : AgentStatus) (g : AgentState → AgentState)
      → ((a : AgentState) → s ≡ (g a).status)
      → ((a : AgentState) → a.definition_name ≡ (g a).definition_name)
      → ((a : AgentState) → a.parent_id ≡ (g a).parent_id)
      → ((a : AgentState) → a.pending_tool_calls ≡ (g a).pending_tool_calls)
      → ((a : AgentState) → a.executing_tool_call ≡ (g a).executing_tool_call)
      → Shown oe oa
      → Shown
          (if id =ₛ b then Option.map (with_status s) oe else oe)
          (if id =ₛ b then Option.map g oa else oa)
  status-Shown id s g q d p k x h =
      both-Shown (id =ₛ b) (with_status s) g oe oa
        (λ e a c f m. with_status-Mirrors e a m s (g a) (q a) (d a) (p a) (k a) (x a)) h

  -- Updates of an agent that the tree does not show.
  hidden-Shown :
      (id : String) (g : AgentState → AgentState)
      → ((a : AgentState) → agent_view a ≡ agent_view (g a))
      → Shown oe oa
      → Shown oe (if id =ₛ b then Option.map g oa else oa)
  hidden-Shown id g k h =
      agent_only-Shown (id =ₛ b) g oe oa (λ e a c f m. unseen-Mirrors e e a (g a) refl (k a) m) h

  pub step-Shown :
      (body : EventBody)
      → Orderly b body oa
      → Shown oe oa
      → Shown (entry_after b body oe) (agent_after (effect now body) b oa)
  unfolding on_state_changed on_inference_started on_inference_failed on_agent_paused
      on_context_compacted on_preamble_added on_start_completed on_complete_completed
  step-Shown (agent_spawned id name parent input) o h =
      spawned-Shown (id =ₛ b) id name parent input oe oa h
  step-Shown (agent_state_changed id from_state to_state) o h =
      status-Shown id to_state (on_state_changed to_state) (λ a. refl) (λ a. refl) (λ a. refl)
        (λ a. refl) (λ a. refl) h
  step-Shown (inference_started s) o h =
      status-Shown s.agent_id inferring (on_inference_started s) (λ a. refl) (λ a. refl) (λ a. refl)
        (λ a. refl) (λ a. refl) h
  step-Shown (inference_completed id r m) o h =
      both-Shown (id =ₛ b) (entry_completed (length r.tool_calls) m.cost)
        (on_inference_completed r m) oe oa
        (λ e a c f k.
          completed-Mirrors e a k r m (Orderly-at b (inference_completed id r m) oa a f o c))
        h
  step-Shown (inference_failed id error) o h =
      status-Shown id errored (on_inference_failed now) (λ a. refl) (λ a. refl) (λ a. refl)
        (λ a. refl) (λ a. refl) h
  step-Shown (inference_retried id) o h =
      both-Shown (id =ₛ b) entry_retried on_inference_retried oe oa
        (λ e a c f k. retried-Mirrors e a k) h
  step-Shown (tool_started id call name input) o h =
      both-Shown (id =ₛ b) entry_executing (on_tool_started call name now) oe oa
        (λ e a c f k. executing-Mirrors e a k call name now) h
  step-Shown (tool_completed d result) o h =
      both-Shown (d.agent_id =ₛ b) entry_tool_done (on_tool_done d.tool_call_id now false result) oe
        oa
        (λ e a c f k.
          tool_done-Mirrors e a k d.tool_call_id now false result
            (Orderly-at b (tool_completed d result) oa a f o c))
        h
  step-Shown (tool_failed d error) o h =
      both-Shown (d.agent_id =ₛ b) entry_tool_done
        (on_tool_done d.tool_call_id now true (plain error)) oe oa
        (λ e a c f k.
          tool_done-Mirrors e a k d.tool_call_id now true (plain error)
            (Orderly-at b (tool_failed d error) oa a f o c))
        h
  step-Shown (agent_paused id reason message held) o h =
      status-Shown id paused (on_agent_paused reason message held) (λ a. refl) (λ a. refl)
        (λ a. refl) (λ a. refl) (λ a. refl) h
  step-Shown (agent_resumed id) o h =
      both-Shown (id =ₛ b) entry_resumed on_agent_resumed oe oa (λ e a c f k. resumed-Mirrors e a k)
        h
  step-Shown (session_restarted _ _) o h = restarted-Shown oe oa h
  step-Shown (mailbox_message to sequence m) o h =
      entry_only-Shown (to =ₛ b) entry_mailed oe oa
        (λ e a k. unseen-Mirrors e (entry_mailed e) a a refl refl k) h
  step-Shown (mailbox_consumed id ids) o h =
      entry_only-Shown (id =ₛ b) (entry_consumed (length ids)) oe oa
        (λ e a k. unseen-Mirrors e (entry_consumed (length ids) e) a a refl refl k) h
  step-Shown (context_compacted id history) o h =
      hidden-Shown id (on_context_compacted history) (λ a. refl) h
  step-Shown (agent_conversation_spliced id start count inserted) o h =
      agent_only-Shown (id =ₛ b) (on_conversation_spliced start count inserted) oe oa
        (λ e a c f k.
          spliced-Mirrors e a k start count inserted
            (Orderly-at b (agent_conversation_spliced id start count inserted) oa a f o c))
        h
  step-Shown (preamble_added id messages) o h =
      hidden-Shown id (on_preamble_added messages) (λ a. refl) h
  step-Shown (handler_completed id on_start result) o h =
      hidden-Shown id on_start_completed (λ a. refl) h
  step-Shown (handler_completed id on_complete none) o h =
      hidden-Shown id on_complete_completed (λ a. refl) h
  step-Shown _ o h = h

tree-Shown :
    (b : String) (es : List DomainEvent) (agents : Dict AgentTreeEntry) (oa : Option AgentState)
    → OrderlyRun b es oa
    → Shown (lookup b agents) oa
    → Shown (lookup b (agent_tree agents es)) (run_agent b es oa)
unfolding agent_tree run_agent
tree-Shown b [] agents oa o h = h
tree-Shown b (e ∷ es) agents oa o h =
    let next = lookup-apply_event_to_agent_tree agents b e.body in
    let step = step-Shown b e.timestamp (lookup b agents) oa e.body o.0 h in
    tree-Shown b es (apply_event_to_agent_tree agents e.body)
      (agent_after (effect e.timestamp e.body) b oa) o.1
      (subst (λ x. Shown x (agent_after (effect e.timestamp e.body) b oa)) (sym next) step)

-- The tree that a client builds from a log, event by event, mirrors the session that
-- the reducer rebuilds from the same log: it has an entry for an agent exactly when the session
-- has the agent, with the same definition, parent and status, as many pending tool calls, and the
-- mark of a running tool exactly when one runs. The log is orderly for the agent: a tool that is
-- done was pending once, no tool runs while an inference completes, and a history is spliced only
-- while the agent is idle.
pub agent_tree-Shown :
    (es : List DomainEvent) (t : SessionState) (b : String)
    → reconstruct_session_state es ≡ ok (some t)
    → OrderlyRun b es none
    → Shown (lookup b (agent_tree [] es)) (lookup b t.agents)
unfolding lookup
agent_tree-Shown es t b h o =
    subst (Shown (lookup b (agent_tree [] es))) (sym (lookup-reconstruct es t b h))
      (tree-Shown b es [] none o tt)
