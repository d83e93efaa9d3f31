-- ===== src/DebugStore.antt =====
-- The event store of the debug interface, packages/debug/src/stores/event-store.ts: it loads a
-- session's events page by page and keeps its projections up to date. A response that arrives after
-- the user left the session is dropped, so it is none of these.
pub mod Follows
pub mod Watch
pub mod Shows
use roj.Base.{
  ℕ, Bool, true, false, ◌&&◌, Option, none, some, List, [], ◌∷◌, ◌++◌, if◌then◌else◌, ◌==◌, keep,
  is_empty,
}
use roj.Base.Int.{ℤ, negsuc}
use roj.SessionLifecycle.{EventsQuery, EventsPage}

pub record EventStoreState (E P : Type 0) : Type 0 where
  pub events : List E
  pub last_index : ℤ
  -- The states of all projections.
  pub projections : P
  pub is_polling : Bool

-- What the events are to the store: the projections as one, `agentRegistryState.count` in it, and
-- the tests on an event.
pub record Views (E P : Type 0) : Type 0 where
  pub initial : P
  pub apply_event : P → E → P
  pub agent_count : P → ℕ
  pub is_domain_event : E → Bool
  pub is_session_created : E → Bool

-- The request of a poll, and that of the first load.
abbrev pub poll_query : ℤ → EventsQuery
poll_query last_index = record {
  since = some last_index;
  limit = some 1000;
  offset = none;
  event_type = none;
  agent_id = none;
}

abbrev pub load_query : EventsQuery
load_query = record {
  since = none;
  limit = some 10000;
  offset = none;
  event_type = none;
  agent_id = none;
}

module _ {E P : Type 0} (v : Views E P) where
  -- The loop over events.
  unfoldable pub apply_all : P → List E → P
  apply_all p [] = p
  apply_all p (e ∷ es) = apply_all (v.apply_event p e) es

  -- `allEvents[0].type === 'session_created'`
  abbrev pub starts_session : List E → Bool
  starts_session [] = false
  starts_session (e ∷ es) = v.is_session_created e

  abbrev pub no_session : EventStoreState E P
  no_session = record {
    events = [];
    last_index = negsuc 0;
    projections = v.initial;
    is_polling = false;
  }

  abbrev loaded : List E → ℤ → EventStoreState E P
  loaded events last_index =
      if is_empty events
      then record no_session { last_index = last_index }
      else if starts_session events
      then record {
        events = events;
        last_index = last_index;
        projections = apply_all v.initial events;
        is_polling = true;
      }
      else no_session

  -- The first load; a request that fails leaves the store empty.
  unfoldable pub load_session : (EventsQuery → Option (EventsPage E)) → EventStoreState E P
  unfolding apply_all
  load_session call = elim (call load_query) [
    | none ↦ no_session
    | some page ↦ loaded (keep v.is_domain_event page.events) page.last_index
  ]

  -- The rest of a poll, when the response is there.
  unfoldable pub receive_page : EventsPage E → EventStoreState E P → EventStoreState E P
  unfolding apply_all
  receive_page page s =
      let new_events = keep v.is_domain_event page.events in
      let all_events = s.events ++ new_events in
      if is_empty new_events
      then record s { last_index = page.last_index }
      else if v.agent_count s.projections == 0 && is_empty s.events
      then if starts_session all_events
        then record s {
          events = all_events;
          last_index = page.last_index;
          projections = apply_all v.initial all_events;
        }
        else record s { last_index = page.last_index }
      else record s {
        events = all_events;
        last_index = page.last_index;
        projections = apply_all s.projections new_events;
      }

  -- One poll, whose response comes before the next poll.
  unfoldable pub fetch_new_events :
      (EventsQuery → Option (EventsPage E)) → EventStoreState E P → EventStoreState E P
  unfolding receive_page
  fetch_new_events call s = elim (call (poll_query s.last_index)) [
    | none ↦ s
    | some page ↦ receive_page page s
  ]
