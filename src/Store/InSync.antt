-- ===== src/Store/InSync.antt =====
-- The stored metadata of a session against its log: `append` and `appendBatch` of base-event-store.ts
-- with `computeMetadataFromEvents` of metadata-utils.ts.
use roj.Base.{
  ℕ, suc, ◌+◌, ◌≡◌, refl, sym, ap, ◌∙◌, String, true, false, Option, none, some, List, [], ◌∷◌,
  ◌++◌, arith, length, length-append, append-nil, or_else, All-rest, Dict, lookup,
  lookup-insert_self,
}
use roj.Event.{EventBody, session_created, DomainEvent}
use roj.Store.{MemoryStore, do_append_batch, load, write_metadata}
use roj.Store.Metadata.{
  Metrics, SessionMetadata, active, zero_metrics, count_event, tally, note_status,
  is_valid_session_id, merge_metadata, update_metadata_from_events,
}
use roj.Store.Recompute.{
  computed, next_status, compute_event, compute_events, compute_metrics_from_events, status_from,
  last_timestamp, compute_metadata_from_events,
}
use roj.Store.Recount.{
  is_created, Plain, bump, count_events, count_events_lem, compute_events-append,
  compute_events-bump, compute_events-HasCost, seen, tally-seen, last_seen_lem, status_seen_lem,
  status_seen-some, status_from-append, last_timestamp-append,
}

-- The log of a session begins with its creation, and nothing later creates it again.
abbrev pub Opens : List DomainEvent → Type 0
Opens [] = ⊥
Opens (e ∷ es) = (is_created e.body ≡ true) × Plain es

recount :
    (e : DomainEvent) (xs ys : List DomainEvent)
    → Plain ys
    → count_events (compute_metrics_from_events (e ∷ xs)) ys
      ≡ compute_metrics_from_events ((e ∷ xs) ++ ys)
unfolding compute_metrics_from_events
recount e xs ys p =
    let zero = zero_metrics (length (e ∷ xs)) in
    count_events_lem (compute_events zero (e ∷ xs)) ys p
      (compute_events-HasCost zero (e ∷ xs) (record { cost = refl }))
    ∙ ap (bump (length ys)) (sym (compute_events-append zero (e ∷ xs) ys))
    ∙ sym (compute_events-bump (length ys) zero ((e ∷ xs) ++ ys))
    ∙ ap (λ n. compute_events (zero_metrics n) ((e ∷ xs) ++ ys)) (sym (length-append (e ∷ xs) ys))

module _ (now : ℕ) (id : String) (valid : is_valid_session_id id ≡ true) where
  update_computed :
      (e f : DomainEvent) (xs ys : List DomainEvent) (body : EventBody)
      → is_created body ≡ true
      → Plain (f ∷ ys)
      → update_metadata_from_events now id (computed id body e xs) (f ∷ ys)
        ≡ computed id body e (xs ++ (f ∷ ys))
  unfolding update_metadata_from_events merge_metadata tally last_timestamp
  update_computed e f xs ys (session_created preset a b) c p = rw (
    valid,
    tally-seen none none none none (compute_metrics_from_events (e ∷ xs)) (f ∷ ys) p,
    last_seen_lem f.timestamp ys,
    recount e xs (f ∷ ys) p,
    status_seen_lem none (status_from active (e ∷ xs)) (f ∷ ys),
    status_from-append active (e ∷ xs) (f ∷ ys),
    last_timestamp-append e.timestamp xs (f ∷ ys),
  )
  update_computed e f xs ys _ c p = cc

created-count_event :
    (m : Metrics) (body : EventBody) → is_created body ≡ true → count_event m body ≡ zero_metrics 1
unfolding count_event
created-count_event m (session_created _ _ _) p = refl
created-count_event m _ p = cc

created-compute_event :
    (m : Metrics) (body : EventBody) → is_created body ≡ true → compute_event m body ≡ m
unfolding compute_event
created-compute_event m (session_created _ _ _) p = refl
created-compute_event m _ p = cc

add_comm_one : (n : ℕ) → 1 + n ≡ suc n
add_comm_one n = omega arith

count_opening :
    (e : DomainEvent) (es : List DomainEvent)
    → is_created e.body ≡ true
    → Plain es
    → count_events (count_event (zero_metrics 0) e.body) es ≡ compute_metrics_from_events (e ∷ es)
unfolding compute_metrics_from_events compute_events
count_opening e es c p =
    ap (λ m. count_events m es) (created-count_event (zero_metrics 0) e.body c)
    ∙ count_events_lem (zero_metrics 1) es p (record { cost = refl })
    ∙ sym (compute_events-bump (length es) (zero_metrics 1) es)
    ∙ ap (λ n. compute_events (zero_metrics n) es) (add_comm_one (length es))
    ∙ ap (λ m. compute_events m es)
        (sym (created-compute_event (zero_metrics (suc (length es))) e.body c))

module _ (now : ℕ) (id : String) (valid : is_valid_session_id id ≡ true) where
  update_opening :
      (e : DomainEvent) (es : List DomainEvent) (body : EventBody)
      → e.body ≡ body
      → is_created body ≡ true
      → Plain es
      → update_metadata_from_events now id none (e ∷ es) ≡ computed id body e es
  unfolding update_metadata_from_events merge_metadata tally status_from
  update_opening e es (session_created preset a b) q c p =
      let m = zero_metrics 0 in
      let t = e.timestamp in
      let noted = ap (λ b. note_status b t (seen none none (some t) none)) q in
      let told =
        ap (λ u. tally u (count_event m e.body) es) noted
        ∙ tally-seen (some preset) (some t) (some t) (some active) (count_event m e.body) es p in
      rw (
        valid,
        told,
        count_opening e es (ap is_created q) p,
        last_seen_lem t es,
        status_seen-some active es,
        ap (λ b. next_status active b) q,
      )
  update_opening e es _ q c p = cc

-- The stored metadata is what the session's log says.
abbrev pub InSync : String → MemoryStore → Type 0
InSync id store = lookup id store.metadata ≡ compute_metadata_from_events id (load store id)

or_else-computed :
    (id : String) (body : EventBody) (e : DomainEvent) (xs : List DomainEvent)
    (o : Option SessionMetadata)
    → is_created body ≡ true
    → or_else (computed id body e xs) o ≡ computed id body e xs
or_else-computed id (session_created _ _ _) e xs o c = refl
or_else-computed id _ e xs o c = cc

lookup-write_metadata :
    (id : String) (o : Option SessionMetadata) (metadata : Dict SessionMetadata)
    → lookup id (write_metadata id o metadata) ≡ or_else o (lookup id metadata)
lookup-write_metadata id none metadata = refl
lookup-write_metadata id (some m) metadata = lookup-insert_self id m metadata

pub load-do_append_batch :
    (now : ℕ) (id : String) (es : List DomainEvent) (store : MemoryStore)
    → load (do_append_batch now id es store) id ≡ load store id ++ es
unfolding do_append_batch load
load-do_append_batch now id [] store = sym (append-nil (load store id))
load-do_append_batch now id (e ∷ es) store =
    rw (lookup-insert_self id (load store id ++ (e ∷ es)) store.events)

module _ (now : ℕ) (id : String) (valid : is_valid_session_id id ≡ true) where
  update_lem :
      (log es : List DomainEvent) (e : DomainEvent)
      → Opens (log ++ (e ∷ es))
      → update_metadata_from_events now id (compute_metadata_from_events id log) (e ∷ es)
        ≡ compute_metadata_from_events id (log ++ (e ∷ es))
  unfolding compute_metadata_from_events
  update_lem [] es e p = update_opening now id valid e es e.body refl p.0 p.1
  update_lem (x ∷ xs) es e p =
      update_computed now id valid x e xs es x.body p.0
        (All-rest (λ e. is_created e.body ≡ false) xs (e ∷ es) p.1)

  pub stored_lem :
      (log : List DomainEvent) (o : Option SessionMetadata)
      → Opens log
      → or_else (compute_metadata_from_events id log) o ≡ compute_metadata_from_events id log
  unfolding compute_metadata_from_events
  stored_lem [] o p = elim p [ ]
  stored_lem (e ∷ es) o p = or_else-computed id e.body e es o p.0

  pub do_append_batch-InSync :
      (es : List DomainEvent) (store : MemoryStore)
      → InSync id store
      → Opens (load store id ++ es)
      → InSync id (do_append_batch now id es store)
  unfolding do_append_batch
  do_append_batch-InSync [] store s p = s
  do_append_batch-InSync (e ∷ es) store s p =
      let log = load store id in
      let u = update_metadata_from_events now id (lookup id store.metadata) (e ∷ es) in
      lookup-write_metadata id u store.metadata
      ∙ ap (λ x. or_else x (lookup id store.metadata))
          (ap (λ x. update_metadata_from_events now id x (e ∷ es)) s ∙ update_lem log es e p)
      ∙ stored_lem (log ++ (e ∷ es)) (lookup id store.metadata) p
      ∙ ap (compute_metadata_from_events id) (sym (load-do_append_batch now id (e ∷ es) store))
