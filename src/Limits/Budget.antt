-- ===== src/Limits/Budget.antt =====
-- What an agent has spent, over a log.
use roj.Base.{
  ℕ, ◌+◌, ◌≡◌, refl, ◌∙◌, String, Bool, false, Option, none, some, List, [], ◌∷◌, if◌then◌else◌,
  ◌=ₛ◌, ◌||◌, All, Dict, lookup, insert, lookup-insert, or_zero, arith, Bool-cases, Option-cases,
  inl, inr, eq_iff,
}
use roj.Message.{Json}
use roj.Agent.{truthy}
use roj.Event.{
  EventBody, agent_spawned, mailbox_message, agent_input_consumed, inference_completed,
  auxiliary_inference_completed, context_compacted, tool_started, tool_completed, tool_failed,
  agent_resumed,
}
use roj.Session.{SessionState}
use roj.Limits.{AgentCounters, create_agent_counters}
use roj.Limits.Counters.{
  with_counters, with_parent, one_spawned, one_sent, one_compaction, progressed, spend,
  on_inference, on_started, on_resumed, tool_succeeded, tool_has_failed, reduce_limits,
}

-- An event, with the session's state after the core reducer.
abbrev pub Seen : Type 0
Seen = SessionState × EventBody

-- The money and the tokens that an event bills to the agent `b`.
abbrev pub cost_to : String → EventBody → ℕ
cost_to b (inference_completed id r u) = if id =ₛ b then or_zero u.cost else 0
cost_to b (auxiliary_inference_completed id u) = if id =ₛ b then or_zero u.cost else 0
cost_to b _ = 0

abbrev pub tokens_to : String → EventBody → ℕ
tokens_to b (inference_completed id r u) = if id =ₛ b then u.total_tokens else 0
tokens_to b (auxiliary_inference_completed id u) = if id =ₛ b then u.total_tokens else 0
tokens_to b _ = 0

abbrev pub total : (EventBody → ℕ) → List Seen → ℕ
total f [] = 0
total f ((s, body) ∷ log) = f body + total f log

abbrev pub spawns_again : String → EventBody → Bool
spawns_again b (agent_spawned id _ _ _) = id =ₛ b
spawns_again b _ = false

-- `b` has counters, which grew by these amounts.
pub record Spent (b : String) (limits : Dict AgentCounters) (c : AgentCounters) (cost tokens : ℕ)
    : Type 0 where
  pub counters : AgentCounters
  pub found : lookup b limits ≡ some counters
  pub paid : counters.cost_spent ≡ c.cost_spent + cost
  pub used : counters.tokens_used ≡ c.tokens_used + tokens

abbrev pub map_counters :
    (AgentCounters → AgentCounters) → Option AgentCounters → Option AgentCounters
map_counters f none = none
map_counters f (some c) = some (f c)

pub lookup-with_counters :
    (b id : String) (f : AgentCounters → AgentCounters) (limits : Dict AgentCounters)
    → lookup b (with_counters id f limits)
      ≡ (if id =ₛ b then map_counters f (lookup b limits) else lookup b limits)
lookup-with_counters b id f limits = elim (Option-cases (lookup id limits)) [
  | inl n ↦ ground (arith, n, eq_iff id b)
  | inr (c, n) ↦ ground (arith, n, eq_iff id b, lookup-insert id b (f c) limits)
]

module _ (b : String) where
  unchanged :
      (limits : Dict AgentCounters) (c : AgentCounters)
      → lookup b limits ≡ some c
      → Spent b limits c 0 0
  unchanged limits c found = record {
    counters = c;
    found = found;
    paid = omega arith;
    used = omega arith;
  }

  with_counters-Spent :
      (id : String) (f : AgentCounters → AgentCounters) (limits : Dict AgentCounters)
      (c : AgentCounters) (x y : ℕ)
      → ((d : AgentCounters)
          → ((f d).cost_spent ≡ d.cost_spent + x) × ((f d).tokens_used ≡ d.tokens_used + y))
      → lookup b limits ≡ some c
      → Spent b (with_counters id f limits) c (if id =ₛ b then x else 0) (if id =ₛ b then y else 0)
  with_counters-Spent id f limits c x y h found = elim (Bool-cases (id =ₛ b)) [
    | inl e ↦ record {
      counters = f c;
      found = lookup-with_counters b id f limits ∙ rw (e, found);
      paid = rw e ((h c).0);
      used = rw e ((h c).1);
    }
    | inr e ↦ record {
      counters = c;
      found = lookup-with_counters b id f limits ∙ rw (e, found);
      paid = rw e (omega arith);
      used = rw e (omega arith);
    }
  ]

  with_counters-unchanged :
      (id : String) (f : AgentCounters → AgentCounters) (limits : Dict AgentCounters)
      (c : AgentCounters)
      → ((d : AgentCounters)
          → ((f d).cost_spent ≡ d.cost_spent) × ((f d).tokens_used ≡ d.tokens_used))
      → lookup b limits ≡ some c
      → Spent b (with_counters id f limits) c 0 0
  with_counters-unchanged id f limits c h found =
      let v =
        with_counters-Spent id f limits c 0 0
          (λ d. (let p = (h d).0 in omega arith, let q = (h d).1 in omega arith)) found in
      record {
        counters = v.counters;
        found = v.found;
        paid = ground (arith, v.paid);
        used = ground (arith, v.used);
      }

  with_parent-Spent :
      (parent : Option String) (limits : Dict AgentCounters) (c : AgentCounters)
      → lookup b limits ≡ some c
      → Spent b (with_parent parent one_spawned limits) c 0 0
  with_parent-Spent none limits c found = unchanged limits c found
  with_parent-Spent (some id) limits c found =
      with_counters-unchanged id one_spawned limits c (λ d. (refl, refl)) found

module _ (response_fingerprint : Option String → String)
    (tool_call_fingerprint : String → Json → String) where
  unfoldable pub run_limits : List Seen → Dict AgentCounters → Dict AgentCounters
  run_limits [] limits = limits
  run_limits ((s, body) ∷ log) limits =
      run_limits log (reduce_limits response_fingerprint tool_call_fingerprint s body limits)

  reduce_limits-Spent :
      (b : String) (s : SessionState) (body : EventBody) (limits : Dict AgentCounters)
      (c : AgentCounters)
      → spawns_again b body ≡ false
      → lookup b limits ≡ some c
      → Spent b
          (reduce_limits response_fingerprint tool_call_fingerprint s body limits)
          c
          (cost_to b body)
          (tokens_to b body)
  unfolding reduce_limits on_inference on_started on_resumed tool_succeeded tool_has_failed
  reduce_limits-Spent b s (agent_spawned id name parent input) limits c n found =
      with_parent-Spent b (truthy parent) (insert id create_agent_counters limits) c
        (lookup-insert id b create_agent_counters limits ∙ rw (n, found))
  reduce_limits-Spent b s (mailbox_message to sequence m) limits c n found =
      elim (Bool-cases (m.sender =ₛ "user" || m.sender =ₛ "")) [
        | inl e ↦ rw e (unchanged b limits c found)
        | inr e ↦
            rw e (with_counters-unchanged b m.sender one_sent limits c (λ d. (refl, refl)) found)
      ]
  reduce_limits-Spent b s (agent_input_consumed id plugins) limits c n found =
      with_counters-unchanged b id progressed limits c (λ d. (refl, refl)) found
  reduce_limits-Spent b s (inference_completed id r u) limits c n found =
      with_counters-Spent b id _ limits c (or_zero u.cost) u.total_tokens (λ d. (refl, refl)) found
  reduce_limits-Spent b s (auxiliary_inference_completed id u) limits c n found =
      with_counters-Spent b id (spend u) limits c (or_zero u.cost) u.total_tokens
        (λ d. (refl, refl)) found
  reduce_limits-Spent b s (context_compacted id history) limits c n found =
      with_counters-unchanged b id one_compaction limits c (λ d. (refl, refl)) found
  reduce_limits-Spent b s (tool_started id call name input) limits c n found =
      with_counters-unchanged b id _ limits c (λ d. ground arith) found
  reduce_limits-Spent b s (tool_completed e result) limits c n found =
      with_counters-unchanged b e.agent_id _ limits c (λ d. (refl, refl)) found
  reduce_limits-Spent b s (tool_failed e error) limits c n found =
      with_counters-unchanged b e.agent_id _ limits c (λ d. (refl, refl)) found
  reduce_limits-Spent b s (agent_resumed id) limits c n found =
      with_counters-unchanged b id on_resumed limits c (λ d. (refl, refl)) found
  reduce_limits-Spent b s _ limits c n found = unchanged b limits c found

  -- Unless an event creates the agent anew, the amounts that an agent with counters has spent grow
  -- over a log by what the log's inference events bill to the agent, side-channel calls included,
  -- and by nothing else: no resume, pause, compaction or tool event changes what was spent.
  pub run_limits-Spent :
      (b : String) (log : List Seen) (limits : Dict AgentCounters) (c : AgentCounters)
      → All (λ (x : Seen). spawns_again b x.1 ≡ false) log
      → lookup b limits ≡ some c
      → Spent b (run_limits log limits) c (total (cost_to b) log) (total (tokens_to b) log)
  unfolding run_limits
  run_limits-Spent b [] limits c n found = unchanged b limits c found
  run_limits-Spent b ((s, body) ∷ log) limits c n found =
      let first = reduce_limits-Spent b s body limits c n.0 found in
      let rest = run_limits-Spent b log _ first.counters n.1 first.found in
      let p = first.paid in
      let q = first.used in
      record {
        counters = rest.counters;
        found = rest.found;
        paid = omega (arith, rest.paid, p);
        used = omega (arith, rest.used, q);
      }
