-- ===== src/Runtime/Dequeue/Gates.antt =====
-- What counts as pending is what a turn collects, and a held plugin's messages are neither.
use roj.Base.{
  is_some, ◌≡◌, refl, Bool, true, false, not, ◌&&◌, ◌||◌, Option, none, some, List, [], ◌∷◌,
  if◌then◌else◌, any, is_empty, Option-cases, Bool-cases, inl, inr, arith, All,
}
use roj.Runtime.{Trace, Plugin, Runtime}
use roj.Runtime.Dequeue.{
  Dequeued, is_dequeue_held, has_pending, offered, cons_some, collect_from,
  has_plugin_pending_messages, collect_plugin_messages,
}

-- The contract of a dequeue hook: it says that messages are pending when it has some to give.
abbrev pub Agrees : Trace → Plugin → Type 0
Agrees t p = elim p.dequeue [
  | none ↦ Unit
  | some hook ↦ hook.has_pending_messages t ≡ is_some (hook.get_pending_messages t)
]

has_pending_lem :
    (all : List Plugin) (t : Trace) (p : Plugin)
    → Agrees t p
    → has_pending all t p ≡ not (is_dequeue_held all p.name t) && is_some (offered p t)
has_pending_lem all t p h = elim (Option-cases p.dequeue) [
  | inl n ↦ rw (has_pending, offered, n) (ground arith)
  | inr (hook, n) ↦
      let agrees = rw n at h in
      elim (Option-cases (hook.get_pending_messages t)) [
        | inl m ↦ rw (has_pending, offered, n, agrees, m) (ground arith)
        | inr (found, m) ↦ rw (has_pending, offered, n, agrees, m) (ground arith)
      ]
]

-- One plugin's part, by whether it is held and what it offers.
pending-cons :
    (held : Bool) (o : Option Dequeued) (ds : List Dequeued)
    → (not held && is_some o) || not (is_empty ds)
      ≡ not (is_empty (if held then ds else cons_some o ds))
pending-cons true o ds = refl
pending-cons false none ds = refl
pending-cons false (some d) ds = refl

any-has_pending :
    (all ps : List Plugin) (t : Trace)
    → All (Agrees t) ps
    → any (has_pending all t) ps ≡ not (is_empty (collect_from all ps t))
unfolding collect_from
any-has_pending all [] t h = refl
any-has_pending all (p ∷ ps) t h =
    rw (has_pending_lem all t p h.0, any-has_pending all ps t h.1)
      (pending-cons (is_dequeue_held all p.name t) (offered p t) (collect_from all ps t))

abbrev Free : List Plugin → Trace → Dequeued → Type 0
Free all t d = is_dequeue_held all d.plugin t ≡ false

All-cons_some :
    (all : List Plugin) (t : Trace) (p : Plugin) (ds : List Dequeued)
    → is_dequeue_held all p.name t ≡ false
    → All (Free all t) ds
    → All (Free all t) (cons_some (offered p t) ds)
All-cons_some all t p ds h hs = elim (Option-cases p.dequeue) [
  | inl n ↦ rw (cons_some, offered, n) hs
  | inr (hook, n) ↦ elim (Option-cases (hook.get_pending_messages t)) [
    | inl m ↦ rw (cons_some, offered, n, m) hs
    | inr (found, m) ↦ rw (cons_some, offered, n, m) (h, hs)
  ]
]

All-collect_from : (all ps : List Plugin) (t : Trace) → All (Free all t) (collect_from all ps t)
unfolding collect_from
All-collect_from all [] t = tt
All-collect_from all (p ∷ ps) t =
    let rest = All-collect_from all ps t in
    elim (Bool-cases (is_dequeue_held all p.name t)) [
      | inl e ↦ rw (collect_from, e) rest
      | inr e ↦ rw (collect_from, e) (All-cons_some all t p (collect_from all ps t) e rest)
    ]

-- An agent has pending input exactly when a turn that starts now collects some, provided each
-- dequeue hook says that messages are pending exactly when it gives some: the agent is not woken
-- for messages that are held, and does not miss those that are not. Nothing that a turn collects
-- comes from a plugin whose messages a gate holds.
pub has_plugin_pending_messages-collect :
    (r : Runtime) (t : Trace)
    → All (Agrees t) r.plugins
    → (has_plugin_pending_messages r t ≡ not (is_empty (collect_plugin_messages r t)))
      × All (λ d. is_dequeue_held r.plugins d.plugin t ≡ false) (collect_plugin_messages r t)
unfolding has_plugin_pending_messages collect_plugin_messages
has_plugin_pending_messages-collect r t h = elim (Option-cases (r.state t)) [
  | inl n ↦ rw (has_plugin_pending_messages, collect_plugin_messages, n) (refl, tt)
  | inr (a, n) ↦
      rw (has_plugin_pending_messages, collect_plugin_messages, n)
        (any-has_pending r.plugins r.plugins t h, All-collect_from r.plugins r.plugins t)
]
