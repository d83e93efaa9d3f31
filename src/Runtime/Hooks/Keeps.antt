-- ===== src/Runtime/Hooks/Keeps.antt =====
-- Running hooks keeps whatever each effect of a hook keeps.
use roj.Base.{
  refl, ◌≡◌, ◌∙◌, Option, none, some, List, [], ◌∷◌, Option-cases, inl, inr, true, false, Bool,
  if◌then◌else◌,
}
use roj.Agent.{handler}
use roj.Event.{HandlerName, on_start, on_pause, agent_paused}
use roj.Runtime.{
  Effect, ran, HandlerResult, HookOutcome, raised, returned, pause, Trace, Plugin, Runtime, emit,
}
use roj.Runtime.Hooks.{
  action_of, handles, first_result, first_pause, pause_of, keep_first, run_on_pause,
  execute_on_pause, emit_handler_pause, pause_if,
}
use roj.Runtime.Hooks.Quiet.{IsHookEffect, ran_hook, hook_paused}

module _ (P : Trace → Type 0)
    (step : (x : Effect) (t : Trace) → IsHookEffect x → P t → P (x ∷ t)) where
  run_on_pause_keeps : (ps : List Plugin) (t : Trace) → P t → P (run_on_pause ps t)
  unfolding run_on_pause
  run_on_pause_keeps [] t h = h
  run_on_pause_keeps (p ∷ ps) t h = elim (Option-cases (p.hook on_pause)) [
    | inl n ↦ rw (run_on_pause, n) (run_on_pause_keeps ps t h)
    | inr (hook, n) ↦
        let now = step (ran on_pause p.name) t (ran_hook on_pause p.name) h in
        rw (run_on_pause, n) (run_on_pause_keeps ps (ran on_pause p.name ∷ t) now)
  ]

  pub first_pause_keeps :
      (ps : List Plugin) (found : Option HandlerResult) (t : Trace)
      → P t
      → P (first_pause ps found t).0
  unfolding first_pause
  first_pause_keeps [] found t h = h
  first_pause_keeps (p ∷ ps) found t h = elim (Option-cases (p.hook on_start)) [
    | inl n ↦ rw (first_pause, n) (first_pause_keeps ps found t h)
    | inr (hook, n) ↦
        let now = step (ran on_start p.name) t (ran_hook on_start p.name) h in
        rw (first_pause, n)
          (first_pause_keeps ps (keep_first found (pause_of (hook t))) (ran on_start p.name ∷ t)
            now)
  ]

  pub first_result_keeps :
      (name : HandlerName) (ps : List Plugin) (t : Trace) → P t → P (first_result name ps t).0
  unfolding first_result
  first_result_keeps name [] t h = h
  first_result_keeps name (p ∷ ps) t h =
      let now = step (ran name p.name) t (ran_hook name p.name) h in
      elim (Option-cases (p.hook name)) [
        | inl n ↦ rw (first_result, n) (first_result_keeps name ps t h)
        | inr (hook, n) ↦ elim (Option-cases (action_of name (hook t))) [
          | inl m ↦ rw (first_result, n, m) (first_result_keeps name ps (ran name p.name ∷ t) now)
          | inr (result, m) ↦ rw (first_result, n, m) now
        ]
      ]

  module _ (r : Runtime) where
    pub execute_on_pause_keeps : (t : Trace) → P t → P (execute_on_pause r t)
    unfolding execute_on_pause
    execute_on_pause_keeps t h = elim (Option-cases (r.state t)) [
      | inl n ↦ rw (execute_on_pause, n) h
      | inr (a, n) ↦ rw (execute_on_pause, n) (run_on_pause_keeps r.plugins t h)
    ]

    pub pause_if_keeps : (result : Option HandlerResult) (t : Trace) → P t → P (pause_if r result t)
    unfolding emit_handler_pause
    pause_if_keeps none t h = h
    pause_if_keeps (some (pause reason)) t h =
        let paused = hook_paused r.id handler reason false in
        execute_on_pause_keeps (emit (agent_paused r.id handler reason false) t) (step _ t paused h)
    pause_if_keeps (some _) t h = h

known_action :
    (name : HandlerName) (b : Bool) (x y : HandlerResult)
    → handles name x ≡ b
    → (if b then some x else none) ≡ some y
    → handles name y ≡ true
known_action name true x y h e = let q : x ≡ y = cc in rw q at h
known_action name false x y h e = absurd (cc e)

handled_action :
    (name : HandlerName) (o : HookOutcome) (y : HandlerResult)
    → action_of name o ≡ some y
    → handles name y ≡ true
handled_action name raised y e = absurd (cc e)
handled_action name (returned none) y e = absurd (cc e)
handled_action name (returned (some x)) y e = known_action name (handles name x) x y refl e

-- The result that wins is one that the kind of hook knows.
pub first_result_handled :
    (name : HandlerName) (ps : List Plugin) (t : Trace) (y : HandlerResult)
    → (first_result name ps t).1 ≡ some y
    → handles name y ≡ true
unfolding first_result
first_result_handled name [] t y e = absurd (cc e)
first_result_handled name (p ∷ ps) t y e = elim (Option-cases (p.hook name)) [
  | inl n ↦ first_result_handled name ps t y (rw (first_result, n) at e)
  | inr (hook, n) ↦ elim (Option-cases (action_of name (hook t))) [
    | inl m ↦ first_result_handled name ps (ran name p.name ∷ t) y (rw (first_result, n, m) at e)
    | inr (result, m) ↦
        let f = rw (first_result, n, m) at e in handled_action name (hook t) y (m ∙ f)
  ]
]
