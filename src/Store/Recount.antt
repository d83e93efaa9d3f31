-- ===== src/Store/Recount.antt =====
-- Metadata that is kept event by event agrees with metadata that is computed from the log.
use roj.Base.{
  ℕ, suc, ◌+◌, ◌≡◌, refl, ap, ◌∙◌, String, Bool, true, false, Option, none, some, List, [], ◌∷◌,
  ◌++◌, arith, All, length, or_zero, or_else, get_or,
}
use roj.Agent.{LlmMetrics}
use roj.Event.{
  EventBody, session_created, session_closed, session_reopened, agent_spawned, inference_completed,
  auxiliary_inference_completed, mailbox_message, tool_started, DomainEvent,
}
use roj.Store.Metadata.{
  Metrics, MetadataStatus, MetadataUpdate, active, closed, no_update, bill, count_event, tally,
  note_status,
}
use roj.Store.Recompute.{
  compute_bill, compute_event, compute_events, status_from, last_timestamp, next_status,
}

abbrev pub is_created : EventBody → Bool
is_created (session_created _ _ _) = true
is_created _ = false

-- Events that do not create a session.
abbrev pub Plain : List DomainEvent → Type 0
Plain = All λ e. is_created e.body ≡ false

abbrev pub bump : ℕ → Metrics → Metrics
bump n m = record m { total_events = m.total_events + n }

pub record HasCost (m : Metrics) : Type 0 where
  pub cost : m.total_cost ≡ some (or_zero m.total_cost)

compute_event-HasCost :
    (m : Metrics) (body : EventBody) → HasCost m → HasCost (compute_event m body)
unfolding compute_event
compute_event-HasCost m (agent_spawned _ _ _ _) h = record { cost = h.cost }
compute_event-HasCost m (inference_completed _ _ u) h = ground arith
compute_event-HasCost m (auxiliary_inference_completed _ u) h = ground arith
compute_event-HasCost m (mailbox_message _ _ _) h = record { cost = h.cost }
compute_event-HasCost m (tool_started _ _ _ _) h = record { cost = h.cost }
compute_event-HasCost m _ h = h

bill_agrees : (u : LlmMetrics) (m : Metrics) → HasCost m → bill u m ≡ bump 1 (compute_bill u m)
bill_agrees u m h = ground arith

count_event_lem :
    (m : Metrics) (body : EventBody)
    → is_created body ≡ false
    → HasCost m
    → count_event m body ≡ bump 1 (compute_event m body)
unfolding count_event compute_event
count_event_lem m (session_created _ _ _) p h = cc
count_event_lem m (inference_completed _ _ u) p h = bill_agrees u m h
count_event_lem m (auxiliary_inference_completed _ u) p h = bill_agrees u m h
count_event_lem m _ p h = refl

compute_event-bump :
    (n : ℕ) (m : Metrics) (body : EventBody)
    → compute_event (bump n m) body ≡ bump n (compute_event m body)
unfolding compute_event
compute_event-bump n m (agent_spawned _ _ _ _) = refl
compute_event-bump n m (inference_completed _ _ u) = refl
compute_event-bump n m (auxiliary_inference_completed _ u) = refl
compute_event-bump n m _ = refl

pub compute_events-bump :
    (n : ℕ) (m : Metrics) (es : List DomainEvent)
    → compute_events (bump n m) es ≡ bump n (compute_events m es)
unfolding compute_events
compute_events-bump n m [] = refl
compute_events-bump n m (e ∷ es) =
    ap (λ x. compute_events x es) (compute_event-bump n m e.body)
    ∙ compute_events-bump n (compute_event m e.body) es

pub compute_events-append :
    (m : Metrics) (xs ys : List DomainEvent)
    → compute_events m (xs ++ ys) ≡ compute_events (compute_events m xs) ys
unfolding compute_events
compute_events-append m [] ys = refl
compute_events-append m (x ∷ xs) ys = compute_events-append (compute_event m x.body) xs ys

pub compute_events-HasCost :
    (m : Metrics) (es : List DomainEvent) → HasCost m → HasCost (compute_events m es)
unfolding compute_events
compute_events-HasCost m [] h = h
compute_events-HasCost m (e ∷ es) h =
    compute_events-HasCost (compute_event m e.body) es (compute_event-HasCost m e.body h)

pub count_events : Metrics → List DomainEvent → Metrics
count_events m [] = m
count_events m (e ∷ es) = count_events (count_event m e.body) es

bump-bump : (a b : ℕ) (m : Metrics) → bump a (bump b m) ≡ bump (b + a) m
bump-bump a b m = ground arith

one_more : (n : ℕ) → 1 + n ≡ suc n
one_more n = omega arith

pub count_events_lem :
    (m : Metrics) (es : List DomainEvent)
    → Plain es
    → HasCost m
    → count_events m es ≡ bump (length es) (compute_events m es)
unfolding count_events compute_events
count_events_lem m [] p h = ground arith
count_events_lem m (e ∷ es) p h =
    let m' = compute_event m e.body in
    ap (λ x. count_events x es) (count_event_lem m e.body p.0 h)
    ∙ count_events_lem (bump 1 m') es p.1
        (record { cost = (compute_event-HasCost m e.body h).cost })
    ∙ ap (bump (length es)) (compute_events-bump 1 m' es)
    ∙ bump-bump (length es) 1 (compute_events m' es)
    ∙ ap (λ n. bump n (compute_events m' es)) (one_more (length es))

-- The status and the last activity that a run of events puts into an update.
abbrev pub status_after : Option MetadataStatus → EventBody → Option MetadataStatus
status_after o session_closed = some closed
status_after o session_reopened = some active
status_after o _ = o

abbrev pub status_seen : Option MetadataStatus → List DomainEvent → Option MetadataStatus
status_seen o [] = o
status_seen o (e ∷ es) = status_seen (status_after o e.body) es

abbrev pub last_seen : Option ℕ → List DomainEvent → Option ℕ
last_seen o [] = o
last_seen o (e ∷ es) = last_seen (some e.timestamp) es

abbrev pub seen : Option String → Option ℕ → Option ℕ → Option MetadataStatus → MetadataUpdate
seen preset created last status = record no_update {
  preset_id = preset;
  created_at = created;
  last_activity_at = last;
  status = status;
}

note_status-seen :
    (body : EventBody) (t : ℕ) (p : Option String) (c l : Option ℕ) (s : Option MetadataStatus)
    → is_created body ≡ false
    → note_status body t (seen p c l s) ≡ seen p c l (status_after s body)
note_status-seen (session_created _ _ _) t p c l s q = cc
note_status-seen _ t p c l s q = refl

pub tally-seen :
    (p : Option String) (c l : Option ℕ) (s : Option MetadataStatus) (m : Metrics)
    (es : List DomainEvent)
    → Plain es
    → tally (seen p c l s) m es
      ≡ record (seen p c (last_seen l es) (status_seen s es)) { metrics = some (count_events m es) }
unfolding tally count_events
tally-seen p c l s m [] q = refl
tally-seen p c l s m (e ∷ es) q =
    ap (λ u. tally u (count_event m e.body) es)
      (note_status-seen e.body e.timestamp p c (some e.timestamp) s q.0)
    ∙ tally-seen p c (some e.timestamp) (status_after s e.body) (count_event m e.body) es q.1

pub last_seen_lem :
    (t : ℕ) (es : List DomainEvent) → last_seen (some t) es ≡ some (last_timestamp t es)
unfolding last_timestamp
last_seen_lem t [] = refl
last_seen_lem t (e ∷ es) = last_seen_lem e.timestamp es

status_after_lem :
    (o : Option MetadataStatus) (s : MetadataStatus) (body : EventBody)
    → get_or (status_after o body) s ≡ next_status (get_or o s) body
status_after_lem o s session_closed = refl
status_after_lem o s session_reopened = refl
status_after_lem o s _ = refl

pub status_seen_lem :
    (o : Option MetadataStatus) (s : MetadataStatus) (es : List DomainEvent)
    → or_else (status_seen o es) (some s) ≡ some (status_from (get_or o s) es)
unfolding status_from
status_seen_lem none s [] = refl
status_seen_lem (some x) s [] = refl
status_seen_lem o s (e ∷ es) =
    status_seen_lem (status_after o e.body) s es
    ∙ ap (λ x. some (status_from x es)) (status_after_lem o s e.body)

pub status_from-append :
    (s : MetadataStatus) (xs ys : List DomainEvent)
    → status_from s (xs ++ ys) ≡ status_from (status_from s xs) ys
unfolding status_from
status_from-append s [] ys = refl
status_from-append s (x ∷ xs) ys = status_from-append (next_status s x.body) xs ys

pub last_timestamp-append :
    (t : ℕ) (xs ys : List DomainEvent)
    → last_timestamp t (xs ++ ys) ≡ last_timestamp (last_timestamp t xs) ys
unfolding last_timestamp
last_timestamp-append t [] ys = refl
last_timestamp-append t (x ∷ xs) ys = last_timestamp-append x.timestamp xs ys

status_after-some :
    (s : MetadataStatus) (body : EventBody) → status_after (some s) body ≡ some (next_status s body)
status_after-some s session_closed = refl
status_after-some s session_reopened = refl
status_after-some s _ = refl

pub status_seen-some :
    (s : MetadataStatus) (es : List DomainEvent) → status_seen (some s) es ≡ some (status_from s es)
unfolding status_from
status_seen-some s [] = refl
status_seen-some s (e ∷ es) =
    ap (λ o. status_seen o es) (status_after-some s e.body)
    ∙ status_seen-some (next_status s e.body) es
