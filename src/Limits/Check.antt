-- ===== src/Limits/Check.antt =====
-- `checkLimits`, `checkBudget` and the hooks of limits-guard. A result carries what the program
-- decides on: the limit's name, the value and the limit; its texts are left out.
use roj.Base.{
  ℕ, ◌+◌, ◌*◌, ◌/◌, String, Bool, true, false, ◌&&◌, Option, none, some, List, [], ◌∷◌, ◌++◌,
  if◌then◌else◌, leb, ◌=ₛ◌, is_empty, Dict, lookup,
}
use mathlib.Core.List.{reverse}
use roj.Event.{LlmResponse}
use roj.Limits.{
  AgentCounters, AgentLimits, ResolvedAgentLimits, LimitsSessionConfig, Ratio, Failures,
  resolve_agent_limits, resolve_session_limits,
}
use roj.Limits.Counters.{is_outbound_communication_only, slice_last}

pub data LimitCheckResult : Type 0 where
  within : LimitCheckResult
  soft_warning hard_limit : (limit_name : String) (current limit : ℕ) → LimitCheckResult

pub record LimitCheck : Type 0 where
  pub name : String
  pub current : ℕ
  pub max : Option ℕ

-- `current >= max`; `Infinity` is never reached.
abbrev pub reached : ℕ → Option ℕ → Bool
reached current none = false
reached current (some limit) = leb limit current

abbrev limit_value : Option ℕ → ℕ
limit_value none = 0
limit_value (some limit) = limit

-- `current >= Math.floor(max * ratio)`
abbrev pub near_floor : Ratio → ℕ → Option ℕ → Bool
near_floor r current none = false
near_floor r current (some limit) = leb (limit * r.num / r.den) current

-- `current >= max * ratio`
abbrev pub near : Ratio → ℕ → Option ℕ → Bool
near r current none = false
near r current (some limit) = leb (limit * r.num) (current * r.den)

-- The first check that passes the test, or what comes after the loop.
unfoldable pub first_check :
    (ℕ → Option ℕ → Bool)
    → (String → ℕ → ℕ → LimitCheckResult)
    → List LimitCheck
    → LimitCheckResult
    → LimitCheckResult
first_check test result [] after = after
first_check test result (c ∷ checks) after =
    let rest = first_check test result checks after in
    if test c.current c.max then result c.name c.current (limit_value c.max) else rest

abbrev pub check : String → ℕ → Option ℕ → LimitCheck
check name current limit = record { name = name; current = current; max = limit }

abbrev pub hard_checks : AgentCounters → ResolvedAgentLimits → List LimitCheck
hard_checks c l =
    check "maxTurns" c.inference_count (some l.turns)
    ∷ check "maxToolCalls" c.tool_call_count (some l.tool_calls)
    ∷ check "maxSpawnedAgents" c.spawned_agent_count (some l.spawned_agents)
    ∷ check "maxMessagesSent" c.messages_sent_count (some l.messages_sent)
    ∷ check "maxCompactions" c.compaction_count l.compactions
    ∷ check "maxConsecutiveNoProgressTurns" c.consecutive_no_progress_turns
        (some l.consecutive_no_progress_turns)
    ∷ []

-- The loop of `countConsecutiveTailDuplicates`, from the last element back.
unfoldable pub count_while : String → List String → ℕ
count_while last [] = 0
count_while last (x ∷ older) =
    let rest = count_while last older in if x =ₛ last then rest + 1 else 0

abbrev pub count_from_last : List String → ℕ
count_from_last [] = 0
count_from_last (last ∷ older) = count_while last (last ∷ older)

unfoldable pub count_consecutive_tail_duplicates : List String → ℕ
unfolding count_while
count_consecutive_tail_duplicates arr = count_from_last (reverse arr)

unfoldable pub failure_checks : ℕ → Dict Failures → List LimitCheck
failure_checks limit [] = []
failure_checks limit ((name, f) ∷ failures) =
    check "maxConsecutiveToolFailures" f.count (some limit) ∷ failure_checks limit failures

abbrev pub pattern_checks : AgentCounters → ResolvedAgentLimits → List LimitCheck
pattern_checks c l =
    check "maxRepeatedToolCalls" (count_consecutive_tail_duplicates c.recent_tool_call_hashes)
      (some l.repeated_tool_calls)
    ∷ check "maxRepeatedResponses" (count_consecutive_tail_duplicates c.recent_response_hashes)
        (some l.repeated_responses)
    ∷ failure_checks l.consecutive_tool_failures c.consecutive_tool_failures

unfoldable pub check_limits : AgentCounters → ResolvedAgentLimits → LimitCheckResult
unfolding first_check failure_checks count_consecutive_tail_duplicates
check_limits c l = first_check reached hard_limit (hard_checks c l) (
    first_check reached hard_limit (pattern_checks c l)
      (first_check (near_floor l.soft_ratio) soft_warning (hard_checks c l) within))

pub record BudgetSpend : Type 0 where
  pub cost_spent : ℕ
  pub tokens_used : ℕ

unfoldable pub check_budget :
    BudgetSpend → Option ℕ → Option ℕ → Ratio → (cost_name tokens_name : String) → LimitCheckResult
unfolding first_check
check_budget s cost_limit token_limit ratio cost_name tokens_name =
    let checks =
      check cost_name s.cost_spent cost_limit ∷ check tokens_name s.tokens_used token_limit ∷ [] in
    first_check reached hard_limit checks (first_check (near ratio) soft_warning checks within)

abbrev pub spend_of : AgentCounters → BudgetSpend
spend_of c = record { cost_spent = c.cost_spent; tokens_used = c.tokens_used }

unfoldable pub sum_session_spend : Dict AgentCounters → BudgetSpend
sum_session_spend [] = record { cost_spent = 0; tokens_used = 0 }
sum_session_spend ((id, c) ∷ limits) =
    let rest = sum_session_spend limits in
    record {
      cost_spent = c.cost_spent + rest.cost_spent;
      tokens_used = c.tokens_used + rest.tokens_used;
    }

abbrev pub is_hard : LimitCheckResult → Bool
is_hard (hard_limit _ _ _) = true
is_hard _ = false

-- What a hook returns: `null`, a pause, or a reply in place of the model's. A pause for a budget
-- says whose, as the `budget_exceeded` event that goes with it does.
pub data Scope : Type 0 where
  agent_scope session_scope pattern_scope : Scope

pub data HookResult : Type 0 where
  proceed : HookResult
  pause : Scope → (limit_name : String) (current limit : ℕ) → HookResult
  suppress : (limit_name : String) (current limit : ℕ) → HookResult

abbrev pub pause_if_hard : Scope → LimitCheckResult → HookResult → HookResult
pause_if_hard scope (hard_limit name current limit) after = pause scope name current limit
pause_if_hard scope _ after = after

-- The hook `beforeInference`.
unfoldable pub before_inference :
    Option AgentLimits → Option LimitsSessionConfig → String → Dict AgentCounters → HookResult
unfolding check_budget sum_session_spend resolve_agent_limits resolve_session_limits
before_inference config session_config id limits = elim (lookup id limits) [
  | none ↦ proceed
  | some c ↦
      let agent = resolve_agent_limits config in
      let session = resolve_session_limits session_config in
      pause_if_hard agent_scope
        (check_budget (spend_of c) agent.cost agent.tokens agent.soft_ratio "maxCost" "maxTokens")
        (pause_if_hard session_scope
          (check_budget (sum_session_spend limits) session.cost session.tokens session.soft_ratio
            "maxSessionCost" "maxSessionTokens")
          proceed)
]

abbrev after_check : LimitCheckResult → HookResult
after_check (hard_limit name current limit) =
    if name =ₛ "maxConsecutiveNoProgressTurns"
    then suppress name current limit
    else pause pattern_scope name current limit
after_check _ = proceed

module _ (response_fingerprint : Option String → String) where
  -- What the counters will be once the reply is in the log.
  unfoldable pub projected : LlmResponse → List String → AgentCounters → AgentCounters
  projected r dequeued_source_plugins c = record c {
    inference_count = c.inference_count + 1;
    consecutive_no_progress_turns =
        if is_outbound_communication_only r.tool_calls && is_empty dequeued_source_plugins
        then c.consecutive_no_progress_turns + 1
        else 0;
    recent_response_hashes =
        if is_empty r.tool_calls
        then slice_last 10 (c.recent_response_hashes ++ (response_fingerprint r.content ∷ []))
        else c.recent_response_hashes;
  }

  -- The hook `afterInference`.
  unfoldable pub after_inference :
      Option AgentLimits → String → LlmResponse → List String → Dict AgentCounters → HookResult
  unfolding check_limits projected resolve_agent_limits
  after_inference config id r dequeued_source_plugins limits = elim (lookup id limits) [
    | none ↦ proceed
    | some c ↦
        after_check
          (check_limits (projected r dequeued_source_plugins c) (resolve_agent_limits config))
  ]
