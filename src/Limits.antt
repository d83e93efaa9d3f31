-- ===== src/Limits.antt =====
-- The plugin packages/sdk/src/plugins/limits-guard: config.ts, limit-guard.ts and plugin.ts. An
-- amount of money counts whole units of a fixed fraction of a dollar, a ratio is a fraction that is
-- multiplied exactly, and a limit that is not set (`Infinity`) is `none`. A tool's failures are
-- listed in the order in which the tools first failed.
pub mod Counters
pub mod Check
pub mod Budget
pub mod Repeats
pub mod Stop
use roj.Base.{ℕ, String, Option, none, some, List, [], Dict, get_or, or_else}

pub record Ratio : Type 0 where
  pub num : ℕ
  pub den : ℕ

pub record Failures : Type 0 where
  pub count : ℕ
  pub last_error : String

pub record AgentCounters : Type 0 where
  pub inference_count : ℕ
  pub tool_call_count : ℕ
  pub counted_tool_call_id : Option String
  pub spawned_agent_count : ℕ
  pub messages_sent_count : ℕ
  pub consecutive_no_progress_turns : ℕ
  pub compaction_count : ℕ
  pub cost_spent : ℕ
  pub tokens_used : ℕ
  pub consecutive_tool_failures : Dict Failures
  pub recent_tool_call_hashes : List String
  pub recent_response_hashes : List String

abbrev pub create_agent_counters : AgentCounters
create_agent_counters = record {
  inference_count = 0;
  tool_call_count = 0;
  counted_tool_call_id = none;
  spawned_agent_count = 0;
  messages_sent_count = 0;
  consecutive_no_progress_turns = 0;
  compaction_count = 0;
  cost_spent = 0;
  tokens_used = 0;
  consecutive_tool_failures = [];
  recent_tool_call_hashes = [];
  recent_response_hashes = [];
}

pub record AgentLimits : Type 0 where
  pub max_turns : Option ℕ
  pub max_tool_calls : Option ℕ
  pub max_consecutive_tool_failures : Option ℕ
  pub max_spawned_agents : Option ℕ
  pub max_messages_sent : Option ℕ
  pub soft_limit_ratio : Option Ratio
  pub max_repeated_tool_calls : Option ℕ
  pub max_repeated_responses : Option ℕ
  pub max_consecutive_no_progress_turns : Option ℕ
  pub max_cost : Option ℕ
  pub max_tokens : Option ℕ
  pub max_compactions : Option ℕ

pub record ResolvedAgentLimits : Type 0 where
  pub turns : ℕ
  pub tool_calls : ℕ
  pub consecutive_tool_failures : ℕ
  pub spawned_agents : ℕ
  pub messages_sent : ℕ
  pub soft_ratio : Ratio
  pub repeated_tool_calls : ℕ
  pub repeated_responses : ℕ
  pub consecutive_no_progress_turns : ℕ
  pub cost : Option ℕ
  pub tokens : Option ℕ
  pub compactions : Option ℕ

abbrev pub default_ratio : Ratio
default_ratio = record { num = 8; den = 10 }

abbrev pub agent_defaults : ResolvedAgentLimits
agent_defaults = record {
  turns = 100;
  tool_calls = 200;
  consecutive_tool_failures = 3;
  spawned_agents = 10;
  messages_sent = 100;
  soft_ratio = default_ratio;
  repeated_tool_calls = 3;
  repeated_responses = 3;
  consecutive_no_progress_turns = 3;
  cost = none;
  tokens = none;
  compactions = none;
}

unfoldable pub resolve_agent_limits : Option AgentLimits → ResolvedAgentLimits
resolve_agent_limits none = agent_defaults
resolve_agent_limits (some c) = record {
  turns = get_or c.max_turns 100;
  tool_calls = get_or c.max_tool_calls 200;
  consecutive_tool_failures = get_or c.max_consecutive_tool_failures 3;
  spawned_agents = get_or c.max_spawned_agents 10;
  messages_sent = get_or c.max_messages_sent 100;
  soft_ratio = get_or c.soft_limit_ratio default_ratio;
  repeated_tool_calls = get_or c.max_repeated_tool_calls 3;
  repeated_responses = get_or c.max_repeated_responses 3;
  consecutive_no_progress_turns = get_or c.max_consecutive_no_progress_turns 3;
  cost = c.max_cost;
  tokens = c.max_tokens;
  compactions = c.max_compactions;
}

pub record LimitsSessionConfig : Type 0 where
  pub max_session_cost : Option ℕ
  pub max_session_tokens : Option ℕ
  pub soft_limit_ratio : Option Ratio

pub record ResolvedSessionLimits : Type 0 where
  pub cost : Option ℕ
  pub tokens : Option ℕ
  pub soft_ratio : Ratio

unfoldable pub resolve_session_limits : Option LimitsSessionConfig → ResolvedSessionLimits
resolve_session_limits none = record { cost = none; tokens = none; soft_ratio = default_ratio }
resolve_session_limits (some c) = record {
  cost = c.max_session_cost;
  tokens = c.max_session_tokens;
  soft_ratio = get_or c.soft_limit_ratio default_ratio;
}
