-- ===== src/Examples/Limits.antt =====
-- The theorems on limits, at small counters.
use roj.Base.{
  false, ◌≡◌, refl, String, true, Option, none, some, List, [], ◌∷◌, Dict, lookup, insert,
}
use roj.Message.{Json}
use roj.Event.{inference_completed, agent_resumed}
use roj.Limits.{
  AgentCounters, AgentLimits, create_agent_counters, resolve_agent_limits, agent_defaults,
}
use roj.Limits.Counters.{is_waiting, reduce_limits}
use roj.Limits.Check.{check_limits, is_hard, before_inference, check_budget, first_check}
use roj.Limits.Budget.{Seen, Spent, run_limits, run_limits-Spent, total, cost_to, tokens_to}
use roj.Limits.Stop.{is_agent_pause, before_inference-sticky}
use roj.Examples.{busy, session_of, response, metrics, spawned}

abbrev hash : Option String → String
hash o = "h"

abbrev call_hash : String → Json → String
call_hash name input = name

abbrev spent_some : AgentCounters
spent_some = record create_agent_counters { cost_spent = 7; tokens_used = 40; inference_count = 2 }

abbrev limits : Dict AgentCounters
limits = ("a1", spent_some) ∷ []

abbrev log : List Seen
log =
    (session_of busy, inference_completed "a1" response metrics)
    ∷ (session_of busy, agent_resumed "a1")
    ∷ []

limits-a1 : lookup "a1" limits ≡ some spent_some
unfolding lookup
limits-a1 = refl

run_limits-Spent_example :
    Spent "a1"
      (run_limits hash call_hash log limits)
      spent_some
      (total (cost_to "a1") log)
      (total (tokens_to "a1") log)
run_limits-Spent_example =
    run_limits-Spent hash call_hash "a1" log limits spent_some (refl, (refl, tt)) limits-a1

abbrev config : AgentLimits
config = record {
  max_turns = none;
  max_tool_calls = none;
  max_consecutive_tool_failures = none;
  max_spawned_agents = none;
  max_messages_sent = none;
  soft_limit_ratio = none;
  max_repeated_tool_calls = none;
  max_repeated_responses = none;
  max_consecutive_no_progress_turns = none;
  max_cost = some 7;
  max_tokens = none;
  max_compactions = none;
}

stopped : is_agent_pause (before_inference (some config) none "a1" limits) ≡ true
unfolding before_inference check_budget first_check lookup resolve_agent_limits
stopped = refl

before_inference-sticky_example :
    is_agent_pause (before_inference (some config) none "a1" (run_limits hash call_hash log limits))
    ≡ true
before_inference-sticky_example =
    before_inference-sticky hash call_hash (some config) none "a1" log limits spent_some limits-a1
      stopped (refl, (refl, tt))

abbrev spawn_log : List Seen
spawn_log = (session_of busy, spawned.body) ∷ []

spawn_log-a1 : lookup "a1" (run_limits hash call_hash spawn_log []) ≡ some create_agent_counters
unfolding run_limits reduce_limits lookup insert
spawn_log-a1 = refl

waiting : is_waiting "  WAITING " ≡ true
unfolding is_waiting
waiting = refl

waiting_for : is_waiting "WAITING for input" ≡ false
unfolding is_waiting
waiting_for = refl

tool_limit :
    is_hard (check_limits (record spent_some { tool_call_count = 200 }) agent_defaults) ≡ true
unfolding check_limits first_check
tool_limit = refl
