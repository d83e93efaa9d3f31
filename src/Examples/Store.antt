-- ===== src/Examples/Store.antt =====
-- The theorems on the event store, at a small log.
use roj.Base.{
  some, none, ℕ, ◌+◌, ◌≤◌, ◌≡◌, ◌↔◌, refl, true, List, [], ◌∷◌, ◌++◌, any, length, lookup, insert,
  ok, err, arith,
}
use roj.Event.{DomainEvent}
use roj.Store.{
  MemoryStore, empty_store, append_batch, do_append_batch, load, closed_session_append, forbidden,
  is_forbidden_on_closed,
}
use roj.Store.Metadata.{
  SessionMetadata, MetadataStatus, active, is_valid_session_id, tally, merge_metadata,
  update_metadata_from_events, count_event,
}
use roj.Store.Recompute.{
  status_from, compute_metadata_from_events, compute_metrics_from_events, compute_events,
  compute_event, last_timestamp,
}
use roj.Store.InSync.{Opens, InSync}
use roj.Store.Commit.{append_batch-InSync, append_batch-refused_iff}
use roj.Store.Listing.{ListSessionsOptions, place, sort_sessions, list_sessions_with_metadata}
use roj.Examples.{created, spawned, pause, inference, close, closing}

abbrev batch : List DomainEvent
batch = created ∷ spawned ∷ inference ∷ []

abbrev stored : MemoryStore
stored = do_append_batch 0 "s1" batch empty_store

valid : is_valid_session_id "s1" ≡ true
unfolding is_valid_session_id
valid = refl

empty-InSync : InSync "s1" empty_store
unfolding lookup load compute_metadata_from_events
empty-InSync = refl

empty-Opens : Opens (load empty_store "s1" ++ batch)
unfolding load lookup
empty-Opens = (refl, (refl, (refl, tt)))

accepted : append_batch 0 "s1" batch empty_store ≡ ok stored
unfolding append_batch do_append_batch
accepted = refl

append_batch-InSync_example :
    (load stored "s1" ≡ load empty_store "s1" ++ batch) × InSync "s1" stored
append_batch-InSync_example =
    append_batch-InSync 0 "s1" batch empty_store stored valid empty-InSync empty-Opens accepted

abbrev closed_store : MemoryStore
closed_store = do_append_batch 0 "s1" (created ∷ close ∷ []) empty_store

closed-InSync : InSync "s1" closed_store
unfolding do_append_batch load lookup insert compute_metadata_from_events
    update_metadata_from_events merge_metadata tally is_valid_session_id count_event
    compute_metrics_from_events compute_events compute_event status_from last_timestamp
closed-InSync = refl

closed-Opens : Opens (load closed_store "s1")
unfolding load lookup do_append_batch insert
closed-Opens = (refl, (refl, tt))

append_batch-refused_iff_example :
    (append_batch 0 "s1" (closing ∷ []) closed_store
      ≡ err (closed_session_append "s1" (forbidden (closing ∷ []))))
    ↔ (any (λ e. is_forbidden_on_closed e.body) (closing ∷ []) ≡ true)
      × (status_from active (load closed_store "s1") ≡ MetadataStatus.closed)
append_batch-refused_iff_example =
    append_batch-refused_iff 0 "s1" (closing ∷ []) closed_store closed-InSync closed-Opens

within : length (created ∷ spawned ∷ pause ∷ []) ≤ 3 + 0
within = omega arith

abbrev listed_at : ℕ → SessionMetadata
listed_at t = record {
  session_id = "s1";
  preset_id = "preset";
  created_at = t;
  last_activity_at = t;
  status = active;
  name = none;
  tags = some ("mine" ∷ []);
  metrics = none;
  custom = none;
}

abbrev mine : ListSessionsOptions
mine = record {
  status = some active;
  tags = some ("mine" ∷ []);
  limit = none;
  offset = none;
  order_by = none;
  order = none;
}

abbrev three : List SessionMetadata
three = listed_at 4 ∷ listed_at 9 ∷ listed_at 2 ∷ []

newest_first :
    (list_sessions_with_metadata mine three).sessions ≡ listed_at 9 ∷ listed_at 4 ∷ listed_at 2 ∷ []
unfolding list_sessions_with_metadata sort_sessions place
newest_first = refl
