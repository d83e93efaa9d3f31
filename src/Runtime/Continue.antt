-- ===== src/Runtime/Continue.antt =====
-- The loop of `runContinue` of agent.ts, one round after another. The flags of scheduling and the
-- operation around each round are in Agent/Schedule.
pub mod ToolPhase
pub mod Progress
pub mod AfterHooks
pub mod Moves
use roj.Base.{
  ℕ, zero, suc, Bool, true, false, Option, none, some, List, [], ◌∷◌, if◌then◌else◌, ◌==◌, ◌=ₛ◌,
  is_empty,
}
use roj.Message.{ToolCall}
use roj.Agent.{AgentState, is_paused}
use roj.Agent.Loop.{Decision, decide, error_resume_delay_ms}
use roj.Event.{agent_resumed}
use roj.Runtime.{Trace, Runtime, emit, scheduled, retry_armed}
use roj.Runtime.Hooks.{execute_on_start, execute_on_complete}
use roj.Runtime.Dequeue.{has_plugin_pending_messages}
use roj.Runtime.ToolCalls.{execute_tool_call}
use roj.Runtime.Inference.{run_inference, max_inference_retries}

pub data Round : Type 0 where
  halts goes_on : Trace → Round

abbrev pub same_head : ToolCall → List ToolCall → Bool
same_head call [] = false
same_head call (c ∷ cs) = c.id =ₛ call.id

module _ (r : Runtime) where
  -- `if (this.state?.pendingToolCalls.length) continue`, else schedule the next turn.
  abbrev pub more_or_schedule : Option AgentState → Trace → Round
  more_or_schedule none t = halts (scheduled ∷ t)
  more_or_schedule (some a) t =
      if is_empty a.pending_tool_calls then halts (scheduled ∷ t) else goes_on t

  -- After a tool call, given the state then.
  abbrev pub after_call : ToolCall → Option AgentState → Trace → Round
  after_call call none t = halts t
  after_call call (some a) t =
      if is_paused a.status
      then halts t
      else if r.aborted t
      then halts t
      else if same_head call a.pending_tool_calls
      then halts t
      else more_or_schedule (some a) t

  unfoldable pub tool_round : List ToolCall → Trace → Round
  unfolding execute_tool_call
  tool_round [] t = more_or_schedule (r.state t) t
  tool_round (call ∷ calls) t =
      let now = execute_tool_call r call t in after_call call (r.state now) now

  abbrev resume_round : ℕ → Trace → Round
  resume_round zero t = goes_on (emit (agent_resumed r.id) t)
  resume_round (suc delay) t = halts (retry_armed (suc delay) ∷ t)

  abbrev pub decided : Decision → AgentState → Trace → Round
  decided Decision.idle a t = halts t
  decided Decision.paused a t = halts t
  decided Decision.on_start a t = goes_on (execute_on_start r t).0
  decided Decision.tool_exec a t = tool_round a.pending_tool_calls t
  decided Decision.resume_from_error a t =
      resume_round (error_resume_delay_ms r.error_resume_backoff a (r.clock t)) t
  decided Decision.infer a t = goes_on (run_inference r max_inference_retries a t)
  decided Decision.complete a t = halts (execute_on_complete r t)

  abbrev pub with_state : Option AgentState → Trace → Round
  with_state none t = halts t
  with_state (some a) t = decided (decide a (has_plugin_pending_messages r t)) a t

  unfoldable pub round : Trace → Round
  unfolding tool_round run_inference execute_on_start execute_on_complete decide
      error_resume_delay_ms has_plugin_pending_messages
  round t = if r.available t then with_state (r.state t) t else halts t

  -- By the rounds allowed.
  unfoldable pub run_continue : ℕ → Trace → Round
  unfolding round
  run_continue zero t = goes_on t
  run_continue (suc fuel) t = elim (round t) [ halts u ↦ halts u | goes_on u ↦ run_continue fuel u ]
