-- ===== src/Agent/Loop.antt =====
-- The processing loop's decisions: `decide`, `hasWork` and `errorResumeDelayMs` of
-- packages/sdk/src/core/agents/agent.ts. Whether a plugin holds input for the agent
-- (`hasPluginPendingMessages`) and the clock are arguments.
pub mod Progress
pub mod Backoff
use roj.Base.{
  ℕ, ◌+◌, ◌-◌, ◌*◌, ◌^◌, min, Bool, true, false, not, Option, none, some, if◌then◌else◌, is_empty,
  ◌&&◌, ◌||◌, ◌==◌, get_or, or_zero,
}
use roj.Agent.{AgentState, AgentStatus, is_paused}

pub data Decision : Type 0 where
  idle paused on_start tool_exec infer resume_from_error complete : Decision

unfoldable pub has_work : AgentState → Bool
has_work a = not (is_empty a.pending_tool_results)

-- The end of the cases `pending` and `errored`.
abbrev settled : AgentState → Decision
settled a = if a.completion_handled then Decision.idle else Decision.complete

abbrev by_status : AgentStatus → AgentState → Bool → Decision
by_status AgentStatus.tool_exec a input =
    if is_empty a.pending_tool_calls then Decision.idle else Decision.tool_exec
by_status AgentStatus.pending a input = if has_work a || input then Decision.infer else settled a
by_status AgentStatus.errored a input = if input then Decision.resume_from_error else settled a
by_status _ a input = Decision.idle

unfoldable pub decide : AgentState → Bool → Decision
unfolding has_work
decide a has_plugin_pending_messages =
    if is_paused a.status
    then Decision.paused
    else if not a.on_start_called
    then Decision.on_start
    else by_status a.status a has_plugin_pending_messages

pub record ErrorResumeBackoff : Type 0 where
  pub base_delay_ms : Option ℕ
  pub max_delay_ms : Option ℕ

abbrev pub default_error_resume_base_delay_ms : ℕ
default_error_resume_base_delay_ms = 5000

abbrev pub default_error_resume_max_delay_ms : ℕ
default_error_resume_max_delay_ms = 60000

-- `Math.min(base * 2 ** (failures - 1), max)`
unfoldable pub backoff_delay : ErrorResumeBackoff → ℕ → ℕ
backoff_delay config failures =
    min (get_or config.base_delay_ms default_error_resume_base_delay_ms * 2 ^ (failures - 1))
      (get_or config.max_delay_ms default_error_resume_max_delay_ms)

unfoldable pub error_resume_delay_ms : ErrorResumeBackoff → AgentState → ℕ → ℕ
unfolding backoff_delay
error_resume_delay_ms config a now = elim a.last_inference_failure_at [
  | none ↦ 0
  | some last ↦
      if or_zero a.consecutive_inference_failures == 0
      then 0
      else last + backoff_delay config (or_zero a.consecutive_inference_failures) - now
]
