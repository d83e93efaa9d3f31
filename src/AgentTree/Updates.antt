-- ===== src/AgentTree/Updates.antt =====
-- One update of the entry and of the agent, for every event that the tree handles.
use roj.Base.{
  ℕ, ◌-◌, ◌≡◌, refl, sym, ap, ◌∙◌, String, Bool, false, List, if◌then◌else◌, length, is_some, arith,
}
use roj.Message.{Content, LlmMessage}
use roj.Agent.{AgentState, AgentStatus, pending, LlmMetrics}
use roj.Event.{LlmResponse}
use roj.Session.Turn.{on_inference_completed, on_inference_retried}
use roj.Session.Tools.{without_call, on_tool_done, on_tool_started}
use roj.Session.Control.{is_reset, on_agent_resumed, on_conversation_spliced, restart_agent}
use roj.AgentTree.{
  AgentTreeEntry, with_status, entry_completed, entry_retried, entry_executing, entry_tool_done,
  entry_resumed, entry_restarted, status_after_inference_completed, status_after_inference_retried,
  status_after_tool_result,
}
use roj.AgentTree.Mirror.{
  Mirrors, WasPending, IsIdle, length-from_llm_tool_calls, completed_status, tool_status,
  resumed_status, retried_status,
}

module _ (e : AgentTreeEntry) (a : AgentState) (h : Mirrors e a) where
  -- The agent's other fields are not shown.
  pub with_status-Mirrors :
      (s : AgentStatus) (b : AgentState)
      → s ≡ b.status
      → a.definition_name ≡ b.definition_name
      → a.parent_id ≡ b.parent_id
      → a.pending_tool_calls ≡ b.pending_tool_calls
      → a.executing_tool_call ≡ b.executing_tool_call
      → Mirrors (with_status s e) b
  with_status-Mirrors s b q d p c x = record {
    definition_name = h.definition_name ∙ d;
    parent_id = h.parent_id ∙ p;
    status = q;
    calls = h.calls ∙ ap length c;
    executing = h.executing ∙ ap is_some x;
  }

  pub completed-Mirrors :
      (r : LlmResponse) (m : LlmMetrics)
      → is_some a.executing_tool_call ≡ false
      → Mirrors (entry_completed (length r.tool_calls) m.cost e) (on_inference_completed r m a)
  unfolding on_inference_completed
  completed-Mirrors r m x = record {
    definition_name = h.definition_name;
    parent_id = h.parent_id;
    status =
        ap (λ s. status_after_inference_completed s (length r.tool_calls)) h.status
        ∙ completed_status a.status r.tool_calls;
    calls = sym (length-from_llm_tool_calls r.tool_calls);
    executing = sym x;
  }

  pub retried-Mirrors : Mirrors (entry_retried e) (on_inference_retried a)
  unfolding on_inference_retried
  retried-Mirrors = record {
    definition_name = h.definition_name;
    parent_id = h.parent_id;
    status = ap status_after_inference_retried h.status ∙ retried_status a.status;
    calls = h.calls;
    executing = h.executing;
  }

  pub executing-Mirrors :
      (id name : String) (now : ℕ) → Mirrors (entry_executing e) (on_tool_started id name now a)
  unfolding on_tool_started
  executing-Mirrors id name now = record {
    definition_name = h.definition_name;
    parent_id = h.parent_id;
    status = h.status;
    calls = h.calls;
    executing = refl;
  }

  pub tool_done-Mirrors :
      (id : String) (now : ℕ) (is_error : Bool) (content : Content)
      → WasPending id a
      → Mirrors (entry_tool_done e) (on_tool_done id now is_error content a)
  unfolding on_tool_done
  tool_done-Mirrors id now is_error content w =
      let left = without_call id a.pending_tool_calls in
      let count = h.calls in
      let n : e.pending_tool_call_count - 1 ≡ length left = omega (arith, count, w) in
      record {
        definition_name = h.definition_name;
        parent_id = h.parent_id;
        status =
            ap (λ s. status_after_tool_result s (e.pending_tool_call_count - 1)) h.status
            ∙ tool_status a.status (e.pending_tool_call_count - 1) left n;
        calls = n;
        executing = refl;
      }

  pub resumed-Mirrors : Mirrors (entry_resumed e) (on_agent_resumed a)
  unfolding on_agent_resumed
  resumed-Mirrors = record {
    definition_name = h.definition_name;
    parent_id = h.parent_id;
    status = resumed_status e.pending_tool_call_count a.pending_tool_calls h.calls;
    calls = h.calls;
    executing = h.executing;
  }

  pub spliced-Mirrors :
      (start count : ℕ) (inserted : List LlmMessage)
      → IsIdle a
      → Mirrors e (on_conversation_spliced start count inserted a)
  unfolding on_conversation_spliced
  spliced-Mirrors start count inserted (q, n, x) = record {
    definition_name = h.definition_name;
    parent_id = h.parent_id;
    status = h.status ∙ q;
    calls = h.calls ∙ n;
    executing = h.executing ∙ x;
  }

  pub restarted-Mirrors : Mirrors (entry_restarted e) (restart_agent a)
  unfolding restart_agent
  restarted-Mirrors =
      let k = h.status in
      record {
        definition_name = h.definition_name ∙ ground arith;
        parent_id = h.parent_id ∙ ground arith;
        status = ap (λ s. if is_reset s then pending else s) k ∙ ground arith;
        calls = h.calls ∙ ground arith;
        executing = refl;
      }
