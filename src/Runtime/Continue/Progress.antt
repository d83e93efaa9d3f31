-- ===== src/Runtime/Continue/Progress.antt =====
-- A round of the tool phase always gets on.
use roj.Base.{
  ◌≡◌, refl, ap, ◌∙◌, ◌⊎◌, ◌≢◌, true, false, Option, none, some, List, [], ◌∷◌, ◌=ₛ◌, keep, eq_refl,
  Bool-cases, inl, inr, arith, All,
}
use roj.Message.{ToolCall}
use roj.Agent.{AgentState, is_paused}
use roj.Session.Tools.{without_call}
use roj.Runtime.{scheduled, Trace, Runtime}
use roj.Runtime.ToolCalls.{execute_tool_call}
use roj.Runtime.ToolCalls.Outcome.{Stopped}
use roj.Runtime.Continue.{
  Round, halts, goes_on, same_head, more_or_schedule, after_call, tool_round,
}
use roj.Runtime.Continue.ToolPhase.{pending_calls, execute_tool_call_pending}
use roj.Runtime.Replayed.{calls_of, Replays}

-- Why a turn ends between two tools: the agent is gone, paused, or its runtime is shutting down.
pub data Ended (r : Runtime) (t : Trace) : Type 0 where
  agent_gone : r.state t ≡ none → Ended r t
  agent_paused : (a : AgentState) → r.state t ≡ some a → is_paused a.status ≡ true → Ended r t
  shut_down : r.aborted t ≡ true → Ended r t

-- What a round does with the call at the head and those behind it, given the trace after the call.
pub data ToolRound (r : Runtime) (rest : List ToolCall) (u : Trace) : Round → Type 0 where
  ended : Ended r u → ToolRound r rest u (halts u)
  next : rest ≢ [] → ToolRound r rest u (goes_on u)
  last : rest ≡ [] → ToolRound r rest u (halts (scheduled ∷ u))

abbrev pub Other : ToolCall → ToolCall → Type 0
Other call c = (c.id =ₛ call.id) ≡ false

without_others :
    (call : ToolCall) (rest : List ToolCall)
    → All (Other call) rest
    → without_call call.id rest ≡ rest
without_others call [] h = refl
without_others call (c ∷ cs) h = rw (keep, h.0) (ap (λ l. c ∷ l) (without_others call cs h.1))

without_head :
    (call : ToolCall) (rest : List ToolCall)
    → All (Other call) rest
    → without_call call.id (call ∷ rest) ≡ rest
without_head call rest h = rw (keep, eq_refl call.id) (without_others call rest h)

new_head :
    (call : ToolCall) (rest : List ToolCall) → All (Other call) rest → same_head call rest ≡ false
new_head call [] h = refl
new_head call (c ∷ cs) h = h.0

module _ (r : Runtime) (u : Trace) (call : ToolCall) where
  more-ToolRound :
      (a : AgentState) (rest : List ToolCall)
      → a.pending_tool_calls ≡ rest
      → ToolRound r rest u (more_or_schedule r (some a) u)
  more-ToolRound a [] e = rw (more_or_schedule, e) (last refl)
  more-ToolRound a (c ∷ cs) e = rw (more_or_schedule, e) (next (λ q. absurd (ground (arith, q))))

  after_call-ToolRound :
      (o : Option AgentState) (rest : List ToolCall)
      → r.state u ≡ o
      → calls_of o ≡ rest
      → All (Other call) rest
      → ToolRound r rest u (after_call r call o u)
  after_call-ToolRound none rest e c h = ended (agent_gone e)
  after_call-ToolRound (some a) rest e c h = elim (Bool-cases (is_paused a.status)) [
    | inl p ↦ rw (after_call, p) (ended (agent_paused a e p))
    | inr p ↦ elim (Bool-cases (r.aborted u)) [
      | inl q ↦ rw (after_call, p, q) (ended (shut_down q))
      | inr q ↦
          let head : same_head call a.pending_tool_calls ≡ false =
            ap (same_head call) c ∙ new_head call rest h in
          rw (after_call, p, q, head) (more-ToolRound a rest c)
    ]
  ]

-- When the agent's state is the replay of what the runtime emits, and the ids of its pending calls
-- differ from the first one's, a round executes the first call and takes it off the list. It then
-- ends the turn only when the agent is gone, paused or shut down, schedules the next turn when no
-- call is left, and else goes on with the others: the guard against a call that stays pending is
-- never needed. Excepted is a call that a hook paused, or an agent that was gone before.
pub tool_round-ToolRound :
    (r : Runtime) (start : Option AgentState) (t : Trace) (call : ToolCall) (rest : List ToolCall)
    → Replays r start
    → pending_calls r start t ≡ call ∷ rest
    → All (Other call) rest
    → Stopped r t
      ⊎ ((pending_calls r start (execute_tool_call r call t) ≡ rest)
          × ToolRound r rest (execute_tool_call r call t) (tool_round r (call ∷ rest) t))
unfolding tool_round
tool_round-ToolRound r start t call rest law p h = elim (execute_tool_call_pending r start call t) [
  | inl s ↦ inl s
  | inr e ↦
      let u = execute_tool_call r call t in
      let left = e ∙ ap (without_call call.id) p ∙ without_head call rest h in
      inr (
        left,
        after_call-ToolRound r u call (r.state u) rest refl (ap calls_of (law.law u) ∙ left) h,
      )
]
