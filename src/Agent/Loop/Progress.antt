-- ===== src/Agent/Loop/Progress.antt =====
-- What the loop decides after a turn that commits.
use roj.Base.{◌≡◌, ◌≢◌, refl, Bool, true, [], arith, is_empty, if◌then◌else◌, List, ◌∷◌}
use roj.Agent.{AgentState, AgentStatus, LlmMetrics}
use roj.Agent.Loop.{Decision, decide}
use roj.Event.{LlmResponse}
use roj.Message.{ToolCall}
use roj.Session.Turn.{from_llm_tool_calls, on_inference_completed}

is_empty-from_llm_tool_calls :
    (calls : List ToolCall) → is_empty (from_llm_tool_calls calls) ≡ is_empty calls
unfolding from_llm_tool_calls
is_empty-from_llm_tool_calls [] = refl
is_empty-from_llm_tool_calls (tc ∷ calls) = refl

-- A turn that commits for an agent that runs, and whose start hooks ran, is followed by its tool
-- calls if the reply has any, and otherwise by another inference exactly if input waits; with none,
-- by the completion hooks.
pub decide-completed :
    (a : AgentState) (input : Bool) (r : LlmResponse) (m : LlmMetrics)
    → a.status ≢ AgentStatus.paused
    → a.on_start_called ≡ true
    → decide (on_inference_completed r m a) input ≡ (
        if is_empty r.tool_calls
        then (if input then Decision.infer else Decision.complete)
        else Decision.tool_exec)
unfolding decide on_inference_completed
decide-completed a input r m p q = ground (arith, is_empty-from_llm_tool_calls r.tool_calls)
