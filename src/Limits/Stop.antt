-- ===== src/Limits/Stop.antt =====
-- When `beforeInference` and `checkLimits` stop an agent.
use roj.Base.{
  ℕ, ◌+◌, ◌≡◌, refl, sym, ap, ◌∙◌, String, Bool, true, false, Option, none, some, List, [], ◌∷◌,
  ◌||◌, All, Dict, lookup, any, arith,
}
use roj.Message.{Json}
use roj.Limits.{
  AgentCounters, AgentLimits, LimitsSessionConfig, ResolvedAgentLimits, Ratio, resolve_agent_limits,
}
use roj.Limits.Check.{
  LimitCheckResult, within, soft_warning, hard_limit, LimitCheck, HookResult, proceed, pause,
  agent_scope, session_scope, pause_if_hard, before_inference, BudgetSpend, check_budget, reached,
  near_floor, is_hard, first_check, check_limits, hard_checks, pattern_checks, spend_of,
}
use roj.Limits.Budget.{Seen, spawns_again, run_limits, run_limits-Spent}

abbrev pub is_agent_pause : HookResult → Bool
is_agent_pause (pause agent_scope _ _ _) = true
is_agent_pause _ = false

check_budget-is_hard :
    (s : BudgetSpend) (cost tokens : Option ℕ) (r : Ratio) (a b : String)
    → is_hard (check_budget s cost tokens r a b)
      ≡ (reached s.cost_spent cost || reached s.tokens_used tokens)
unfolding check_budget first_check
check_budget-is_hard s cost tokens r a b = ground arith

paused_by_agent :
    (r q : LimitCheckResult)
    → is_agent_pause (pause_if_hard agent_scope r (pause_if_hard session_scope q proceed))
      ≡ is_hard r
paused_by_agent (hard_limit _ _ _) q = refl
paused_by_agent _ (hard_limit _ _ _) = refl
paused_by_agent _ _ = refl

-- An agent's own budget is used up.
abbrev exhausted : ResolvedAgentLimits → AgentCounters → Bool
exhausted l c = reached c.cost_spent l.cost || reached c.tokens_used l.tokens

before_inference-exhausted :
    (config : Option AgentLimits) (session : Option LimitsSessionConfig) (b : String)
    (limits : Dict AgentCounters) (c : AgentCounters)
    → lookup b limits ≡ some c
    → is_agent_pause (before_inference config session b limits)
      ≡ exhausted (resolve_agent_limits config) c
unfolding before_inference
before_inference-exhausted config session b limits c found =
    let l = resolve_agent_limits config in
    rw (before_inference, found)
      (paused_by_agent
          (check_budget (spend_of c) l.cost l.tokens l.soft_ratio "maxCost" "maxTokens") _
        ∙ check_budget-is_hard (spend_of c) l.cost l.tokens l.soft_ratio "maxCost" "maxTokens")

reached_later : (x y : ℕ) (limit : Option ℕ) → reached x limit ≡ true → reached (x + y) limit ≡ true
reached_later x y none h = h
reached_later x y (some n) h = ground arith

exhausted_later :
    (l : ResolvedAgentLimits) (c d : AgentCounters) (x y : ℕ)
    → d.cost_spent ≡ c.cost_spent + x
    → d.tokens_used ≡ c.tokens_used + y
    → exhausted l c ≡ true
    → exhausted l d ≡ true
exhausted_later l c d x y p q h =
    ground (arith, reached_later c.cost_spent x l.cost, reached_later c.tokens_used y l.tokens)

-- Once the own budget of an agent with counters stops it, every later call of the hook stops it
-- for that reason, whatever happens in between, resumes included, unless an event creates the
-- agent anew.
pub before_inference-sticky :
    (response_fingerprint : Option String → String) (tool_call_fingerprint : String → Json → String)
    (config : Option AgentLimits) (session : Option LimitsSessionConfig) (b : String)
    (log : List Seen) (limits : Dict AgentCounters) (c : AgentCounters)
    → lookup b limits ≡ some c
    → is_agent_pause (before_inference config session b limits) ≡ true
    → All (λ (x : Seen). spawns_again b x.1 ≡ false) log
    → is_agent_pause (
        before_inference config session b
          (run_limits response_fingerprint tool_call_fingerprint log limits))
      ≡ true
before_inference-sticky rf tf config session b log limits c found stopped n =
    let later = run_limits-Spent rf tf b log limits c n found in
    let l = resolve_agent_limits config in
    before_inference-exhausted config session b _ later.counters later.found
    ∙ exhausted_later l c later.counters _ _ later.paid later.used
        (sym (before_inference-exhausted config session b limits c found) ∙ stopped)

first_check-hard :
    (test : ℕ → Option ℕ → Bool) (checks : List LimitCheck) (after : LimitCheckResult)
    → is_hard (first_check test hard_limit checks after)
      ≡ (any (λ k. test k.current k.max) checks || is_hard after)
unfolding first_check
first_check-hard test [] after = refl
first_check-hard test (k ∷ checks) after = ground (arith, first_check-hard test checks after)

first_check-soft :
    (test : ℕ → Option ℕ → Bool) (checks : List LimitCheck)
    → is_hard (first_check test soft_warning checks within) ≡ false
unfolding first_check
first_check-soft test [] = refl
first_check-soft test (k ∷ checks) = ground (arith, first_check-soft test checks)

or_false : (b : Bool) → (b || false) ≡ b
or_false false = refl
or_false true = refl

-- `checkLimits` stops an agent exactly if a counter has reached its limit, or a repetition of tool
-- calls or replies, or the failures in a row of some tool have; a soft limit alone never does.
pub check_limits-is_hard :
    (c : AgentCounters) (l : ResolvedAgentLimits)
    → is_hard (check_limits c l) ≡ (
        any (λ (k : LimitCheck). reached k.current k.max) (hard_checks c l)
        || any (λ (k : LimitCheck). reached k.current k.max) (pattern_checks c l))
unfolding check_limits
check_limits-is_hard c l =
    let over = λ (k : LimitCheck). reached k.current k.max in
    let near = near_floor l.soft_ratio in
    let last = first_check near soft_warning (hard_checks c l) within in
    let patterns = first_check reached hard_limit (pattern_checks c l) last in
    first_check-hard reached (hard_checks c l) patterns
    ∙ ap (λ b. any over (hard_checks c l) || b)
        (first_check-hard reached (pattern_checks c l) last
          ∙ ap (λ b. any over (pattern_checks c l) || b) (first_check-soft near (hard_checks c l))
          ∙ or_false (any over (pattern_checks c l)))
