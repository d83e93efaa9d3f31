-- ===== src/Examples/DebugStore.antt =====
-- The theorems on the pages of events and on the debug interface, over both stores.
use roj.Base.{
  ℕ, ◌+◌, ◌≡◌, refl, String, Bool, true, false, Option, none, some, [], ◌∷◌, length, keep, Dict,
  lookup, insert, arith,
}
use roj.Base.Int.{pos, pred_ℤ}
use roj.Event.{DomainEvent, session_created}
use roj.Store.{MemoryStore, empty_store, do_append_batch, load}
use roj.Store.Contract.{memory_reader}
use roj.FileStore.{parse_lines, split_lines, complete_length, read_events}
use roj.FileStore.Range.{read_range}
use roj.FileStore.Reader.{CountedLog, IsCounted, file_reader}
use roj.SessionLifecycle.{EventsQuery, EventsPage, get_events, page_of, matched}
use roj.SessionLifecycle.Pages.{Brings, get_events-Brings}
use roj.AgentTree.{AgentTreeEntry, apply_event_to_agent_tree}
use roj.AgentTree.Mirror.{Shown}
use roj.DebugStore.{EventStoreState, Views, load_session, no_session, receive_page, apply_all}
use roj.DebugStore.Follows.{Begins, Follows, Follows-append}
use roj.DebugStore.Watch.{
  answer, watch, watch-Follows, load_session-Follows, polls, polls-caught_up,
}
use roj.DebugStore.Shows.{HasTree, tree-Shown}
use roj.Examples.{created, spawned, inference, tool_done}
use roj.Examples.AgentTree.{log, rebuilt, log-OrderlyRun}
use roj.Examples.FileStore.{
  letters, letters-Faithful, torn_log, torn_log-Holds, torn_log-IsAscii, ascii_bytes,
}

abbrev name_of : Bool → String
name_of true = "on"
name_of false = "off"

abbrev nobody : Bool → Option String
nobody b = none

abbrev two_letters : CountedLog
two_letters = record { log = torn_log; total_events = 2 }

two_letters-IsCounted : IsCounted letters two_letters (true ∷ false ∷ [])
two_letters-IsCounted = record {
  holds = torn_log-Holds;
  is_ascii = torn_log-IsAscii;
  counted = refl;
}

abbrev only_off : EventsQuery
only_off = record {
  since = none;
  limit = some 1;
  offset = none;
  event_type = some "off";
  agent_id = none;
}

get_events-Brings_example :
    (p : EventsPage Bool) × (get_events name_of nobody
        (λ o. (file_reader letters letters-Faithful ascii_bytes).read_page o two_letters)
        only_off
      ≡ some p)
    × Brings name_of nobody only_off 0 (true ∷ false ∷ []) p
get_events-Brings_example =
    get_events-Brings name_of nobody (file_reader letters letters-Faithful ascii_bytes) only_off
      two_letters (true ∷ false ∷ []) two_letters-IsCounted refl (λ f. absurd (ground (arith, f)))
      (omega arith)

abbrev creates : DomainEvent → Bool
creates e = elim e.body [ session_created _ _ _ ↦ true | _ ↦ false ]

abbrev views : Views DomainEvent (Dict AgentTreeEntry)
views = record {
  initial = [];
  apply_event = λ p e. apply_event_to_agent_tree p e.body;
  agent_count = λ p. length p;
  is_domain_event = λ e. true;
  is_session_created = creates;
}

abbrev unnamed : DomainEvent → String
unnamed e = ""

abbrev no_agent : DomainEvent → Option String
no_agent e = none

abbrev first_store : MemoryStore
first_store = do_append_batch 0 "s1" (created ∷ []) empty_store

abbrev second_store : MemoryStore
second_store = do_append_batch 0 "s1" (spawned ∷ inference ∷ tool_done ∷ []) first_store

first_has : load first_store "s1" ≡ created ∷ []
unfolding do_append_batch load lookup insert
first_has = refl

second_has : load second_store "s1" ≡ log
unfolding do_append_batch load lookup insert
second_has = refl

first-Begins : Begins views (created ∷ [])
unfolding Begins
first-Begins h = refl

log-Begins : Begins views log
unfolding Begins
log-Begins h = refl

abbrev loaded_first : EventStoreState DomainEvent (Dict AgentTreeEntry)
loaded_first = load_session views (answer views unnamed no_agent (memory_reader "s1") first_store)

loaded_first-Follows : Follows views (created ∷ []) loaded_first
loaded_first-Follows =
    load_session-Follows views unnamed no_agent (memory_reader "s1") first_store (created ∷ [])
      first_has first-Begins

watch-Follows_example : Follows views log (
    watch views unnamed no_agent
      (memory_reader "s1")
      ((second_store, spawned ∷ inference ∷ tool_done ∷ []) ∷ [])
      loaded_first)
watch-Follows_example =
    watch-Follows views unnamed no_agent (memory_reader "s1") first_store (created ∷ [])
      ((second_store, spawned ∷ inference ∷ tool_done ∷ []) ∷ []) first_has first-Begins
      (second_has, log-Begins, tt)

behind-Follows : Follows views log loaded_first
behind-Follows =
    Follows-append views (created ∷ []) (spawned ∷ inference ∷ tool_done ∷ []) loaded_first
      loaded_first-Follows

polls-caught_up_example :
    ((polls views unnamed no_agent (memory_reader "s1") 4 second_store loaded_first).events
      ≡ keep views.is_domain_event log)
    × ((polls views unnamed no_agent (memory_reader "s1") 4 second_store loaded_first).last_index
        ≡ pred_ℤ (length log))
    × ((polls views unnamed no_agent (memory_reader "s1") 4 second_store loaded_first).projections
        ≡ apply_all views views.initial (keep views.is_domain_event log))
polls-caught_up_example =
    polls-caught_up views unnamed no_agent (memory_reader "s1") 4 second_store log loaded_first
      second_has log-Begins behind-Follows (omega arith)

abbrev with_tree : HasTree views
with_tree = record {
  tree = λ p. p;
  tree_of_initial = refl;
  tree_of_applied = λ p e. refl;
  knows_all = λ e. refl;
}

tree-Shown_example :
    Shown
      (lookup "a1"
        (polls views unnamed no_agent (memory_reader "s1") 4 second_store loaded_first).projections)
      (lookup "a1" rebuilt.0.agents)
tree-Shown_example =
    tree-Shown views with_tree unnamed no_agent (memory_reader "s1") 4 second_store log loaded_first
      rebuilt.0 "a1" second_has log-Begins behind-Follows (omega arith) rebuilt.1 log-OrderlyRun

-- A poll that is sent before the response to the one before it is there brings the same page.
abbrev letter_views : Views Bool ℕ
letter_views = record {
  initial = 0;
  apply_event = λ n e. n + 1;
  agent_count = λ n. n;
  is_domain_event = λ e. true;
  is_session_created = λ e. e;
}

abbrev one_page : EventsPage Bool
one_page = record { events = true ∷ false ∷ []; total = 2; last_index = pos 1 }

applied_twice :
    receive_page letter_views one_page
      (receive_page letter_views one_page (no_session letter_views))
    ≡ record {
      events = true ∷ false ∷ true ∷ false ∷ [];
      last_index = pos 1;
      projections = 4;
      is_polling = false;
    }
unfolding receive_page apply_all
applied_twice = refl

-- A page of no events, from a file, moves the cursor to the end of the log.
skipped_all :
    get_events name_of nobody
      (λ o. (file_reader letters letters-Faithful ascii_bytes).read_page o two_letters)
      (record { since = none; limit = some 0; offset = none; event_type = none; agent_id = none })
    ≡ some (record { events = []; total = 2; last_index = pos 1 })
unfolding get_events page_of matched read_range read_events complete_length parse_lines split_lines
skipped_all = refl
