-- ===== src/Store/Commit.antt =====
-- `append` and `appendBatch` of base-event-store.ts: what is accepted, what is refused, and what the
-- maps hold afterwards.
use roj.Base.{
  ℕ, ◌≡◌, refl, sym, ap, subst, ◌∙◌, ◌↔◌, inl, inr, String, Bool, true, false, Option, none, some,
  List, [], ◌∷◌, ◌++◌, if◌then◌else◌, arith, get_or, Result, ok, err, any, not, keep, is_empty,
  ◌==◌, Option-cases, lookup,
}
use roj.Event.{EventBody, session_created, DomainEvent}
use roj.Store.{
  MemoryStore, StoreError, do_append_batch, append_batch, load, closed_session_append, forbidden,
  append, guard_write_to_closed, is_forbidden_on_closed, status_closed, reconcile_metadata, guarded,
}
use roj.Store.Metadata.{
  Metrics, SessionMetadata, MetadataStatus, active, is_closed, is_valid_session_id,
}
use roj.Store.Recompute.{
  computed, needs_reconciliation, differs, status_from, compute_metrics_from_events,
  compute_metadata_from_events,
}
use roj.Store.Recount.{is_created}
use roj.Store.InSync.{Opens, InSync, load-do_append_batch, do_append_batch-InSync}

any-keep {ℓ} : {A : Type ℓ} (p : A → Bool) (xs : List A) → any p xs ≡ not (is_empty (keep p xs))
any-keep p [] = refl
any-keep p (x ∷ xs) = ground (arith, any-keep p xs)

append_batch_as_guarded :
    (now : ℕ) (id : String) (es : List DomainEvent) (store : MemoryStore)
    → append_batch now id es store
      ≡ guarded (guard_write_to_closed store id es) (do_append_batch now id es store)
unfolding append_batch guard_write_to_closed do_append_batch
append_batch_as_guarded now id [] store = refl
append_batch_as_guarded now id (e ∷ es) store =
    ground (arith, any-keep (λ e. is_forbidden_on_closed e.body) (e ∷ es))

append-append_batch :
    (now : ℕ) (id : String) (e : DomainEvent) (store : MemoryStore)
    → append now id e store ≡ append_batch now id (e ∷ []) store
unfolding append_batch append
append-append_batch now id e store = ground arith

guarded-ok :
    (r : Result StoreError (Unit {0})) (store after : MemoryStore)
    → guarded r store ≡ ok after
    → store ≡ after
guarded-ok (ok _) store after p = cc
guarded-ok (err _) store after p = cc

-- On a session with a valid id whose log, with the batch, begins with its creation and creates it
-- only there, an accepted batch is at the end of the log, and metadata that agreed with the log
-- before agrees with it after.
pub append_batch-InSync :
    (now : ℕ) (id : String) (es : List DomainEvent) (store after : MemoryStore)
    → is_valid_session_id id ≡ true
    → InSync id store
    → Opens (load store id ++ es)
    → append_batch now id es store ≡ ok after
    → (load after id ≡ load store id ++ es) × InSync id after
append_batch-InSync now id es store after valid s p q =
    let committed =
      guarded-ok (guard_write_to_closed store id es) (do_append_batch now id es store) after
        (sym (append_batch_as_guarded now id es store) ∙ q) in
    (
      ap (λ x. load x id) (sym committed) ∙ load-do_append_batch now id es store,
      subst (InSync id) committed (do_append_batch-InSync now id valid es store s p),
    )

status_closed-computed :
    (id : String) (log : List DomainEvent)
    → Opens log
    → status_closed (compute_metadata_from_events id log) ≡ is_closed (status_from active log)
unfolding compute_metadata_from_events
status_closed-computed id [] p = elim p [ ]
status_closed-computed id (e ∷ es) p = go e.body p.0
  where
    go :
        (body : EventBody)
        → is_created body ≡ true
        → status_closed (computed id body e es) ≡ is_closed (status_from active (e ∷ es))
    go (session_created _ _ _) c = refl
    go _ c = cc

is_closed-closed : (s : MetadataStatus) → is_closed s ≡ true → s ≡ MetadataStatus.closed
is_closed-closed active p = cc
is_closed-closed MetadataStatus.closed p = refl
is_closed-closed MetadataStatus.errored p = cc

not-true : (b : Bool) → not b ≡ true → b ≡ false
not-true false p = refl
not-true true p = cc

guarded-err :
    (b c : Bool) (e : StoreError) (store : MemoryStore)
    → (guarded (if b then ok tt else if c then err e else ok tt) store ≡ err e)
      ↔ (b ≡ false) × (c ≡ true)
guarded-err false true e store = ((λ _. (refl, refl)), (λ _. refl))
guarded-err false false e store = ((λ p. cc), (λ p. cc))
guarded-err true c e store = ((λ p. cc), (λ p. cc))

-- Where the metadata agrees with a log that begins with the session's creation and creates it only
-- there, a batch is refused exactly when it has a session handler event and the log says that the
-- session is closed; the error names the handler events of the batch.
pub append_batch-refused_iff :
    (now : ℕ) (id : String) (es : List DomainEvent) (store : MemoryStore)
    → InSync id store
    → Opens (load store id)
    → (append_batch now id es store ≡ err (closed_session_append id (forbidden es)))
      ↔ (any (λ e. is_forbidden_on_closed e.body) es ≡ true)
        × (status_from active (load store id) ≡ MetadataStatus.closed)
unfolding guard_write_to_closed
append_batch-refused_iff now id es store s p =
    let told = ap status_closed s ∙ status_closed-computed id (load store id) p in
    let found = any-keep (λ e. is_forbidden_on_closed e.body) es in
    let guards =
      guarded-err (is_empty (forbidden es)) (status_closed (lookup id store.metadata))
        (closed_session_append id (forbidden es)) (do_append_batch now id es store) in
    let same = append_batch_as_guarded now id es store in
    (
      (λ q.
          let h = guards.0 (sym same ∙ q) in
          (
            found ∙ ap not h.0,
            is_closed-closed (status_from active (load store id)) (sym told ∙ h.1),
          )),
      (λ h.
          same
          ∙ guards.1
              (not-true (is_empty (forbidden es)) (sym found ∙ h.0), told ∙ ap is_closed h.1)),
    )

==_refl : (n : ℕ) → (n == n) ≡ true
==_refl n = ground arith

differs_self : (m : Metrics) → differs (some m) (some m) ≡ false
differs_self m =
    ground (arith, ==_refl m.total_events, ==_refl m.total_agents, ==_refl m.total_llm_calls)

measured :
    (id : String) (body : EventBody) (e : DomainEvent) (es : List DomainEvent) (m : SessionMetadata)
    → computed id body e es ≡ some m
    → some (compute_metrics_from_events (e ∷ es)) ≡ m.metrics
measured id (session_created _ _ _) e es m q = ap (λ o. get_or (map_option o) none) q
  where
    map_option : Option SessionMetadata → Option (Option Metrics)
    map_option none = none
    map_option (some x) = some x.metrics
measured id _ e es m q = cc

needs_reconciliation-computed :
    (id : String) (log : List DomainEvent) (m : SessionMetadata)
    → compute_metadata_from_events id log ≡ some m
    → needs_reconciliation (some m) m ≡ false
unfolding compute_metadata_from_events needs_reconciliation
needs_reconciliation-computed id [] m q = cc
needs_reconciliation-computed id (e ∷ es) m q =
    rw (← measured id e.body e es m q, differs_self (compute_metrics_from_events (e ∷ es)))

-- Metadata that agrees with the log is not written again by a reconciliation.
pub reconcile_metadata-InSync :
    (id : String) (store : MemoryStore)
    → InSync id store
    → reconcile_metadata id (load store id) store ≡ (store, false)
unfolding reconcile_metadata
reconcile_metadata-InSync id store s =
    elim (Option-cases (compute_metadata_from_events id (load store id))) [
      | inl n ↦ rw (reconcile_metadata, n) refl
      | inr (m, q) ↦
          rw (reconcile_metadata, q, s, q, needs_reconciliation-computed id (load store id) m q)
    ]
