-- ===== src/Runtime/Dequeue.antt =====
-- What plugins hand to an agent's turn: `hasPluginPendingMessages`, `isDequeueHeld`,
-- `collectPluginMessages` and `consumeDequeuedTokens` of agent.ts.
pub mod Gates
use roj.Base.{
  String, Bool, true, false, not, ◌&&◌, Option, none, some, List, [], ◌∷◌, if◌then◌else◌, map, any,
}
use roj.Message.{LlmMessage}
use roj.Event.{agent_input_consumed}
use roj.Runtime.{Trace, Plugin, DequeueHook, Runtime, emit, consumed}

pub record Dequeued : Type 0 where
  pub plugin : String
  pub messages : List LlmMessage
  pub token : String

abbrev pub holds : Trace → String → Plugin → Bool
holds t source p = elim p.before_dequeue [ none ↦ false | some gate ↦ gate t source ]

unfoldable pub is_dequeue_held : List Plugin → String → Trace → Bool
is_dequeue_held plugins source t = any (holds t source) plugins

abbrev pub has_pending : List Plugin → Trace → Plugin → Bool
has_pending plugins t p = elim p.dequeue [
  | none ↦ false
  | some hook ↦ hook.has_pending_messages t && not (is_dequeue_held plugins p.name t)
]

abbrev pub offered : Plugin → Trace → Option Dequeued
offered p t = elim p.dequeue [
  | none ↦ none
  | some hook ↦ elim (hook.get_pending_messages t) [
    | none ↦ none
    | some found ↦ some (record { plugin = p.name; messages = found.0; token = found.1 })
  ]
]

abbrev pub cons_some {ℓ} : {A : Type ℓ} → Option A → List A → List A
cons_some none xs = xs
cons_some (some x) xs = x ∷ xs

-- The loop of `collectPluginMessages`, `all` being the gates.
unfoldable pub collect_from : (all plugins : List Plugin) → Trace → List Dequeued
unfolding is_dequeue_held
collect_from all [] t = []
collect_from all (p ∷ ps) t =
    let rest = collect_from all ps t in
    if is_dequeue_held all p.name t then rest else cons_some (offered p t) rest

abbrev pub mark_consumed : List Dequeued → Trace → Trace
mark_consumed [] t = t
mark_consumed (d ∷ ds) t = mark_consumed ds (consumed d.plugin d.token ∷ t)

module _ (r : Runtime) where
  unfoldable pub has_plugin_pending_messages : Trace → Bool
  unfolding is_dequeue_held
  has_plugin_pending_messages t = elim (r.state t) [
    | none ↦ false
    | some a ↦ any (has_pending r.plugins t) r.plugins
  ]

  unfoldable pub collect_plugin_messages : Trace → List Dequeued
  unfolding collect_from
  collect_plugin_messages t = elim (r.state t) [
    | none ↦ []
    | some a ↦ collect_from r.plugins r.plugins t
  ]

  abbrev pub note_consumed : List Dequeued → Trace → Trace
  note_consumed [] t = t
  note_consumed (d ∷ ds) t =
      emit (agent_input_consumed r.id (map (λ (x : Dequeued). x.plugin) (d ∷ ds))) t

  unfoldable pub consume_dequeued_tokens : List Dequeued → Trace → Trace
  consume_dequeued_tokens dequeued t = elim (r.state t) [
    | none ↦ t
    | some a ↦ note_consumed dequeued (mark_consumed dequeued t)
  ]
