-- ===== src/Store.antt =====
-- Event stores: packages/sdk/src/core/events/base-event-store.ts, memory.ts and metadata-utils.ts,
-- with the metadata of core/sessions/schema.ts. Operations on one session are serialized by the
-- store, so each is one step on its maps; the clock is an argument.
pub mod Listing
pub mod Metadata
pub mod Recompute
pub mod Paging
pub mod Range
pub mod Contract
pub mod Commit
pub mod InSync
pub mod Recount
use roj.Base.{
  ℕ, String, Bool, true, false, Option, none, some, List, [], ◌∷◌, ◌++◌, if◌then◌else◌, is_empty,
  get_or, keep, map, any, Dict, lookup, insert, Result, ok, err,
}
use roj.Event.{EventBody, session_handler_started, session_handler_completed, DomainEvent}
use roj.Store.Metadata.{SessionMetadata, MetadataStatus, is_closed, update_metadata_from_events}
use roj.Store.Recompute.{compute_metadata_from_events, needs_reconciliation}

pub record MemoryStore : Type 0 where
  pub events : Dict (List DomainEvent)
  pub metadata : Dict SessionMetadata

abbrev pub empty_store : MemoryStore
empty_store = record { events = []; metadata = [] }

abbrev pub is_forbidden_on_closed : EventBody → Bool
is_forbidden_on_closed (session_handler_started _ _) = true
is_forbidden_on_closed (session_handler_completed _ _ _ _) = true
is_forbidden_on_closed _ = false

-- `ClosedSessionAppendError`, with the events that it names.
pub data StoreError : Type 0 where
  closed_session_append : (session_id : String) (forbidden : List DomainEvent) → StoreError

abbrev pub forbidden : List DomainEvent → List DomainEvent
forbidden = keep λ e. is_forbidden_on_closed e.body

abbrev pub status_closed : Option SessionMetadata → Bool
status_closed none = false
status_closed (some m) = is_closed m.status

-- `guardWriteToClosed`
unfoldable pub guard_write_to_closed :
    MemoryStore → String → List DomainEvent → Result StoreError (Unit {0})
guard_write_to_closed store id events =
    if is_empty (forbidden events)
    then ok tt
    else if status_closed (lookup id store.metadata)
    then err (closed_session_append id (forbidden events))
    else ok tt

abbrev pub write_metadata :
    String → Option SessionMetadata → Dict SessionMetadata → Dict SessionMetadata
write_metadata id none metadata = metadata
write_metadata id (some m) metadata = insert id m metadata

-- `doAppendBatch`; `doAppend` is the batch of one event.
unfoldable pub do_append_batch : ℕ → String → List DomainEvent → MemoryStore → MemoryStore
do_append_batch now id [] store = store
do_append_batch now id (e ∷ es) store = record {
  events = insert id (get_or (lookup id store.events) [] ++ (e ∷ es)) store.events;
  metadata =
      write_metadata id (update_metadata_from_events now id (lookup id store.metadata) (e ∷ es))
        store.metadata;
}

abbrev guarded : Result StoreError (Unit {0}) → MemoryStore → Result StoreError MemoryStore
guarded (ok _) store = ok store
guarded (err e) store = err e

unfoldable pub append : ℕ → String → DomainEvent → MemoryStore → Result StoreError MemoryStore
unfolding guard_write_to_closed do_append_batch
append now id e store =
    if is_forbidden_on_closed e.body
    then guarded (guard_write_to_closed store id (e ∷ [])) (do_append_batch now id (e ∷ []) store)
    else ok (do_append_batch now id (e ∷ []) store)

unfoldable pub append_batch :
    ℕ → String → List DomainEvent → MemoryStore → Result StoreError MemoryStore
unfolding guard_write_to_closed do_append_batch
append_batch now id [] store = ok store
append_batch now id (e ∷ es) store =
    if any (λ e. is_forbidden_on_closed e.body) (e ∷ es)
    then guarded (guard_write_to_closed store id (e ∷ es)) (do_append_batch now id (e ∷ es) store)
    else ok (do_append_batch now id (e ∷ es) store)

unfoldable pub load : MemoryStore → String → List DomainEvent
load store id = get_or (lookup id store.events) []

unfoldable pub exists : MemoryStore → String → Bool
exists store id = elim (lookup id store.events) [ none ↦ false | some _ ↦ true ]

abbrev keep_names : Option SessionMetadata → SessionMetadata → SessionMetadata
keep_names none computed = record computed { name = none; tags = none; custom = none }
keep_names (some m) computed = record computed { name = m.name; tags = m.tags; custom = m.custom }

-- `reconcileMetadata`; the flag says whether anything was written.
unfoldable pub reconcile_metadata : String → List DomainEvent → MemoryStore → MemoryStore × Bool
reconcile_metadata id events store = elim (compute_metadata_from_events id events) [
  | none ↦ (store, false)
  | some computed ↦
      if needs_reconciliation (lookup id store.metadata) computed
      then (
        record store {
          metadata = insert id (keep_names (lookup id store.metadata) computed) store.metadata;
        },
        true,
      )
      else (store, false)
]
