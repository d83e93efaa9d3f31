-- ===== src/Runtime/Hooks/Isolation.antt =====
-- One plugin's failing hook does not keep the others from being asked.
use roj.Base.{
  ◌≡◌, refl, Bool, true, false, none, some, List, [], ◌∷◌, map, Option-cases, inl, inr,
  if◌then◌else◌,
}
use roj.Event.{HandlerName}
use roj.Runtime.{HandlerResult, HookOutcome, raised, returned, ran, Trace, Plugin}
use roj.Runtime.Hooks.{handles, action_of, first_result}

-- The same hook with every failure turned into `null`, and every result that its kind does not
-- know as well.
abbrev pub calm : HandlerName → HookOutcome → HookOutcome
calm name outcome = returned (action_of name outcome)

abbrev pub calm_plugin : HandlerName → Plugin → Plugin
calm_plugin name p = record p {
  hook = λ asked. elim (p.hook asked) [ none ↦ none | some hook ↦ some (λ t. calm name (hook t)) ];
}

action_of_known :
    (name : HandlerName) (result : HandlerResult) (b : Bool)
    → handles name result ≡ b
    → action_of name (returned (if b then some result else none))
      ≡ (if b then some result else none)
action_of_known name result true h = rw h refl
action_of_known name result false h = refl

action_of-calm :
    (name : HandlerName) (outcome : HookOutcome)
    → action_of name (calm name outcome) ≡ action_of name outcome
action_of-calm name raised = refl
action_of-calm name (returned none) = refl
action_of-calm name (returned (some result)) =
    action_of_known name result (handles name result) refl

-- A hook that throws, or returns what its kind does not know, counts as one that returns `null`:
-- the same hooks run, in the same order, and the same result wins.
pub first_result-calm :
    (name : HandlerName) (ps : List Plugin) (t : Trace)
    → first_result name (map (calm_plugin name) ps) t ≡ first_result name ps t
unfolding first_result
first_result-calm name [] t = refl
first_result-calm name (p ∷ ps) t = elim (Option-cases (p.hook name)) [
  | inl n ↦ rw (first_result, n) (first_result-calm name ps t)
  | inr (hook, n) ↦ elim (Option-cases (action_of name (hook t))) [
    | inl m ↦
        rw (first_result, n, action_of-calm name (hook t), m)
          (first_result-calm name ps (ran name p.name ∷ t))
    | inr (result, m) ↦ rw (first_result, n, action_of-calm name (hook t), m) refl
  ]
]
