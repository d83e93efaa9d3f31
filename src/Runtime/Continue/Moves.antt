-- ===== src/Runtime/Continue/Moves.antt =====
-- A round of start hooks, completion hooks or a resume from an error gets the loop on.
use roj.Base.{
  ℕ, zero, suc, ◌≡◌, ◌≢◌, ◌⊎◌, refl, sym, ◌∙◌, Bool, true, Option, some, ◌∷◌, Bool-cases, inl, inr,
  arith, is_empty,
}
use roj.Agent.{AgentState, AgentStatus}
use roj.Agent.Loop.{Decision, decide, error_resume_delay_ms}
use roj.Event.{agent_resumed}
use roj.Session.Control.{on_agent_resumed}
use roj.Runtime.{retry_armed, Trace, Runtime, emit}
use roj.Runtime.Hooks.{execute_on_start, execute_on_complete}
use roj.Runtime.Dequeue.{has_plugin_pending_messages}
use roj.Runtime.Continue.{Round, halts, goes_on, round, resume_round}
use roj.Runtime.Replayed.{replay, Replays}
use roj.Runtime.Continue.AfterHooks.{
  own-Holds, At, Anything, Called, Finished, execute_on_start-At, execute_on_complete-At,
}

abbrev pub IsSelfDriven : Decision → Type 0
IsSelfDriven d =
    (d ≡ Decision.on_start) ⊎ (d ≡ Decision.resume_from_error) ⊎ (d ≡ Decision.complete)

-- The agent is there, and whatever input waits its next decision is another one.
pub record Changed (r : Runtime) (d : Decision) (u : Trace) : Type 0 where
  pub agent : AgentState
  pub there : r.state u ≡ some agent
  pub other : (input : Bool) → decide agent input ≢ d

-- What a round makes of these decisions for the agent `a`, at the trace `t`.
pub data Moved (r : Runtime) (a : AgentState) (t : Trace) : Decision → Round → Type 0 where
  begun : (u : Trace) → Changed r Decision.on_start u → Moved r a t Decision.on_start (goes_on u)
  waits :
      (delay : ℕ)
      → error_resume_delay_ms r.error_resume_backoff a (r.clock t) ≡ suc delay
      → Moved r a t Decision.resume_from_error (halts (retry_armed (suc delay) ∷ t))
  resumed :
      (u : Trace)
      → error_resume_delay_ms r.error_resume_backoff a (r.clock t) ≡ 0
      → Changed r Decision.resume_from_error u
      → Moved r a t Decision.resume_from_error (goes_on u)
  finished : (u : Trace) → Changed r Decision.complete u → Moved r a t Decision.complete (halts u)

after_start : (b : AgentState) → Called b → (input : Bool) → decide b input ≢ Decision.on_start
unfolding decide
after_start b h input = ground (arith, h)

after_complete : (b : AgentState) → Finished b → (input : Bool) → decide b input ≢ Decision.complete
unfolding decide
after_complete b h input = ground (arith, h)

IsResumed : AgentState → Type 0
IsResumed b = (b.status ≡ AgentStatus.pending) ⊎ (b.status ≡ AgentStatus.tool_exec)

after_resume :
    (b : AgentState) → IsResumed b → (input : Bool) → decide b input ≢ Decision.resume_from_error
unfolding decide IsResumed
after_resume b h input = ground (arith, h)

on_agent_resumed-IsResumed : (a : AgentState) → IsResumed (on_agent_resumed a)
unfolding on_agent_resumed IsResumed
on_agent_resumed-IsResumed a = elim (Bool-cases (is_empty a.pending_tool_calls)) [
  | inl e ↦ rw e (inl refl)
  | inr e ↦ rw e (inr refl)
]

module _ (r : Runtime) (start : Option AgentState) (replays : Replays r start) where
  At-Changed :
      (Q : AgentState → Type 0) (d : Decision) (u : Trace)
      → ((b : AgentState) → Q b → (input : Bool) → decide b input ≢ d)
      → At r start Q u
      → Changed r d u
  At-Changed Q d u k (b, e, q) = record { agent = b; there = replays.law u ∙ e; other = k b q }

  there-At : (t : Trace) (a : AgentState) → r.state t ≡ some a → At r start Anything t
  there-At t a e = (a, sym (replays.law t) ∙ e, tt)

  resume_round-Moved :
      (t : Trace) (a : AgentState) (delay : ℕ)
      → error_resume_delay_ms r.error_resume_backoff a (r.clock t) ≡ delay
      → r.state t ≡ some a
      → Moved r a t Decision.resume_from_error (resume_round r delay t)
  unfolding replay
  resume_round-Moved t a zero e s =
      let now = emit (agent_resumed r.id) t in
      resumed now e (
        At-Changed IsResumed Decision.resume_from_error now after_resume (
          own-Holds Anything IsResumed on_agent_resumed r.id (replay r.id r.clock start t)
            (λ b q. on_agent_resumed-IsResumed b) (there-At t a s)))
  resume_round-Moved t a (suc delay) e s = waits delay e

-- Where the agent's state is the replay of its events and its runtime takes work, a round that is
-- to run the start hooks or the completion hooks, or to resume the agent from an error, ends in a
-- state in which the next decision is another one, whatever the hooks did and whatever input
-- waits; only a resume whose delay has not passed leaves the trace, but for a retry that is armed
-- for the rest of the delay. After the start hooks and a resume the loop goes on, after the
-- completion hooks and an armed retry it halts. A later resume may have the completion hooks run
-- again: this is on the decision that comes next.
pub round-Moved :
    (r : Runtime) (start : Option AgentState) (t : Trace) (a : AgentState)
    → Replays r start
    → r.available t ≡ true
    → r.state t ≡ some a
    → IsSelfDriven (decide a (has_plugin_pending_messages r t))
    → Moved r a t (decide a (has_plugin_pending_messages r t)) (round r t)
unfolding round
round-Moved r start t a replays avail s (inl e) =
    let now = (execute_on_start r t).0 in
    rw (round, avail, s, e)
      (begun now (
        At-Changed r start replays Called Decision.on_start now after_start
          (execute_on_start-At r start t (there-At r start replays t a s))))
round-Moved r start t a replays avail s (inr (inl e)) =
    rw (round, avail, s, e) (resume_round-Moved r start replays t a _ refl s)
round-Moved r start t a replays avail s (inr (inr e)) =
    let now = execute_on_complete r t in
    rw (round, avail, s, e)
      (finished now (
        At-Changed r start replays Finished Decision.complete now after_complete
          (execute_on_complete-At r start t (there-At r start replays t a s))))
