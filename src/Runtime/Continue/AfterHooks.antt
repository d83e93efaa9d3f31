-- ===== src/Runtime/Continue/AfterHooks.antt =====
-- What running hooks leaves of an agent whose state is the replay of its events.
use roj.Base.{
  ◌≡◌, ◌⊎◌, refl, ap, String, Bool, true, false, Option, none, some, ◌∷◌, eq_refl, Bool-cases, inl,
  inr, ◌=ₛ◌,
}
use mathlib.Core.Option
use roj.Message.{Json}
use roj.Agent.{AgentState, AgentStatus, PauseReason, handler}
use roj.Event.{HandlerName, on_start, on_complete, agent_paused}
use roj.Session.Control.{on_agent_paused, on_start_completed, on_complete_completed}
use roj.Session.Projection.{agent_after, updates, handler_effect}
use roj.Runtime.{Effect, HandlerResult, pause, Trace, Runtime, emit}
use roj.Runtime.Hooks.{
  handles, first_pause, first_result, emit_handler_completed, pause_if, execute_on_start,
  execute_on_complete, emit_handler_pause,
}
use roj.Runtime.Hooks.Quiet.{IsHookEffect, ran_hook, hook_done, hook_paused}
use roj.Runtime.Hooks.Keeps.{
  first_pause_keeps, first_result_keeps, first_result_handled, execute_on_pause_keeps,
  pause_if_keeps,
}
use roj.Runtime.Replayed.{replay}

abbrev pub Holds : (AgentState → Type 0) → Option AgentState → Type 0
Holds Q o = (b : AgentState) × (o ≡ some b) × Q b

updated-Holds :
    (Q R : AgentState → Type 0) (f : AgentState → AgentState) (id b : String)
    (o : Option AgentState)
    → ((a : AgentState) → Q a → R (f a))
    → ((a : AgentState) → Q a → R a)
    → Holds Q o
    → Holds R (agent_after (updates id f) b o)
updated-Holds Q R f id b o h k (a, e, q) = elim (Bool-cases (id =ₛ b)) [
  | inl s ↦ rw (agent_after, s) (f a, ap (Option.map f) e, h a q)
  | inr s ↦ rw (agent_after, s) (a, e, k a q)
]

pub own-Holds :
    (Q R : AgentState → Type 0) (f : AgentState → AgentState) (id : String) (o : Option AgentState)
    → ((a : AgentState) → Q a → R (f a))
    → Holds Q o
    → Holds R (agent_after (updates id f) id o)
own-Holds Q R f id o h (a, e, q) = rw (agent_after, eq_refl id) (f a, ap (Option.map f) e, h a q)

-- What the events of hooks leave of an agent.
record HookStable (Q : AgentState → Type 0) : Type 0 where
  starts : (a : AgentState) → Q a → Q (on_start_completed a)
  completes : (a : AgentState) → Q a → Q (on_complete_completed a)
  pauses :
      (reason : PauseReason) (message : Option String) (resumes : Bool) (a : AgentState)
      → Q a
      → Q (on_agent_paused reason message resumes a)

handler-Holds :
    (Q : AgentState → Type 0) (id b : String) (name : HandlerName) (result : Option Json)
    (o : Option AgentState)
    → HookStable Q
    → Holds Q o
    → Holds Q (agent_after (handler_effect id name result) b o)
handler-Holds Q id b on_start result o s h =
    updated-Holds Q Q on_start_completed id b o s.starts (λ a q. q) h
handler-Holds Q id b on_complete none o s h =
    updated-Holds Q Q on_complete_completed id b o s.completes (λ a q. q) h
handler-Holds Q id b on_complete (some x) o s h = h
handler-Holds Q id b _ result o s h = h

module _ (r : Runtime) (start : Option AgentState) where
  abbrev pub At : (AgentState → Type 0) → Trace → Type 0
  At Q t = Holds Q (replay r.id r.clock start t)

  hook-At :
      (Q : AgentState → Type 0)
      → HookStable Q
      → (x : Effect) (t : Trace) → IsHookEffect x
      → At Q t
      → At Q (x ∷ t)
  unfolding replay
  hook-At Q s _ t (ran_hook name plugin) h = h
  hook-At Q s _ t (hook_done id name result) h =
      handler-Holds Q id r.id name result (replay r.id r.clock start t) s h
  hook-At Q s _ t (hook_paused id reason message resumes) h =
      updated-Holds Q Q (on_agent_paused reason message resumes) id r.id
        (replay r.id r.clock start t) (s.pauses reason message resumes) (λ a q. q) h

abbrev pub Anything : AgentState → Type 0
Anything a = Unit

abbrev pub Called : AgentState → Type 0
Called a = a.on_start_called ≡ true

abbrev pub Finished : AgentState → Type 0
Finished a = (a.status ≡ AgentStatus.paused) ⊎ (a.completion_handled ≡ true)

abbrev pub IsPaused : AgentState → Type 0
IsPaused a = a.status ≡ AgentStatus.paused

Anything-HookStable : HookStable Anything
Anything-HookStable = record {
  starts = λ a q. tt;
  completes = λ a q. tt;
  pauses = λ reason message resumes a q. tt;
}

Called-HookStable : HookStable Called
unfolding on_start_completed on_complete_completed on_agent_paused
Called-HookStable = record {
  starts = λ a q. refl;
  completes = λ a q. q;
  pauses = λ reason message resumes a q. q;
}

IsPaused-HookStable : HookStable IsPaused
unfolding on_start_completed on_complete_completed on_agent_paused
IsPaused-HookStable = record {
  starts = λ a q. q;
  completes = λ a q. q;
  pauses = λ reason message resumes a q. refl;
}

abbrev weaken-Holds :
    {Q R : AgentState → Type 0} {o : Option AgentState}
    → ((a : AgentState) → Q a → R a)
    → Holds Q o
    → Holds R o
weaken-Holds k (a, e, q) = (a, e, k a q)

module _ (r : Runtime) (start : Option AgentState) where
  Called-At :
      (found : Option HandlerResult) (t : Trace)
      → At r start Anything t
      → At r start Called (emit_handler_completed r on_start found t)
  unfolding replay on_start_completed
  Called-At none t h =
      own-Holds Anything Called on_start_completed r.id (replay r.id r.clock start t) (λ a q. refl)
        h
  Called-At (some x) t h =
      own-Holds Anything Called on_start_completed r.id (replay r.id r.clock start t) (λ a q. refl)
        h

  pub execute_on_start-At :
      (t : Trace) → At r start Anything t → At r start Called (execute_on_start r t).0
  unfolding execute_on_start
  execute_on_start-At t h =
      let (now, found) = first_pause r.plugins none t in
      let ran_all =
        first_pause_keeps (At r start Anything) (hook-At r start Anything Anything-HookStable)
          r.plugins none t h in
      pause_if_keeps (At r start Called) (hook-At r start Called Called-HookStable) r found
        (emit_handler_completed r on_start found now) (Called-At found now ran_all)

  IsPaused-At :
      (reason : Option String) (t : Trace)
      → At r start Anything t
      → At r start IsPaused (emit_handler_pause r reason t)
  unfolding replay on_agent_paused emit_handler_pause
  IsPaused-At reason t h =
      execute_on_pause_keeps (At r start IsPaused) (hook-At r start IsPaused IsPaused-HookStable) r
        (emit (agent_paused r.id handler reason false) t)
        (own-Holds Anything IsPaused (on_agent_paused handler reason false) r.id
          (replay r.id r.clock start t) (λ a q. refl) h)

  Finished-At :
      (found : Option HandlerResult) (t : Trace)
      → ((y : HandlerResult) → found ≡ some y → handles on_complete y ≡ true)
      → At r start Anything t
      → At r start Finished (pause_if r found (emit_handler_completed r on_complete found t))
  unfolding replay on_complete_completed
  Finished-At none t k h =
      own-Holds Anything Finished on_complete_completed r.id (replay r.id r.clock start t)
        (λ a q. inr refl) h
  Finished-At (some (pause reason)) t k h =
      weaken-Holds (λ a q. inl q)
        (IsPaused-At reason (emit_handler_completed r on_complete (some (pause reason)) t) (
          hook-At r start Anything Anything-HookStable _ t
            (hook_done r.id on_complete (some (r.result_json (pause reason)))) h))
  Finished-At (some y) t k h = absurd (let no = k y refl in cc no)

  pub execute_on_complete-At :
      (t : Trace) → At r start Anything t → At r start Finished (execute_on_complete r t)
  unfolding execute_on_complete
  execute_on_complete-At t h =
      let (now, found) = first_result on_complete r.plugins t in
      Finished-At found now (first_result_handled on_complete r.plugins t) (
        first_result_keeps (At r start Anything) (hook-At r start Anything Anything-HookStable)
          on_complete r.plugins t h)
