-- ===== src/Session/Fork.antt =====
-- packages/sdk/src/core/sessions/fork-utils.ts: the log of a fork, and the snapshots at an index.
pub mod Replay
pub mod Snapshots
use roj.Base.{
  ℕ, suc, String, Bool, true, false, Option, none, some, List, [], ◌∷◌, map, take, length, ltb,
  if◌then◌else◌, or_else, Result, ok, err,
}
use roj.Agent.{truthy}
use roj.Event.{
  EventBody, session_created, tool_completed, tool_failed, DomainEvent, ForkOrigin, ToolDone,
}
use mathlib.Core.List.{reverse}

abbrev pub fork_body : ForkOrigin → EventBody → EventBody
fork_body origin (session_created preset dir old) = session_created preset dir (some origin)
fork_body origin body = body

unfoldable pub fork_event : String → ForkOrigin → DomainEvent → DomainEvent
fork_event new_id origin e = record {
  session_id = new_id;
  timestamp = e.timestamp;
  body = fork_body origin e.body;
}

-- `events.slice(0, eventIndex + 1).map(...)`
unfoldable pub rewrite_events_for_fork : List DomainEvent → ℕ → String → String → List DomainEvent
unfolding fork_event
rewrite_events_for_fork source_events event_index new_session_id source_session_id =
    map (fork_event new_session_id origin) (take (suc event_index) source_events)
  where
    origin : ForkOrigin
    origin = record { session_id = source_session_id; event_index = event_index }

pub record SnapshotRefs : Type 0 where
  pub session_ref : Option String
  pub workspace_ref : Option String

-- The snapshot references of a tool event.
abbrev pub done_of : EventBody → Option ToolDone
done_of (tool_completed e result) = some e
done_of (tool_failed e error) = some e
done_of _ = none

abbrev pub both : Option String → Option String → Bool
both (some a) (some b) = true
both _ _ = false

-- A reference that is found earlier in the scan, which is later in the log, stays.
abbrev pub absorb : Option ToolDone → SnapshotRefs → SnapshotRefs
absorb none refs = refs
absorb (some e) refs = record {
  session_ref = or_else refs.session_ref (truthy e.session_ref);
  workspace_ref = or_else refs.workspace_ref (truthy e.workspace_ref);
}

-- After a tool event the loop stops once both are found.
abbrev pub stops : Option ToolDone → SnapshotRefs → Bool
stops none refs = false
stops (some e) refs = both refs.session_ref refs.workspace_ref

-- The loop, over the events from the index back to the first.
unfoldable pub scan_refs : SnapshotRefs → List DomainEvent → SnapshotRefs
scan_refs refs [] = refs
scan_refs refs (e ∷ older) =
    let found = absorb (done_of e.body) refs in
    let rest = scan_refs found older in if stops (done_of e.body) found then found else rest

pub data OutOfRange : Type 0 where
  no_such_event : OutOfRange

-- Past the end `events[eventIndex]` is `undefined`, and reading its type throws.
unfoldable pub find_snapshot_refs_at_index : List DomainEvent → ℕ → Result OutOfRange SnapshotRefs
unfolding scan_refs
find_snapshot_refs_at_index events event_index =
    if ltb event_index (length events)
    then ok (
        scan_refs (record { session_ref = none; workspace_ref = none })
          (reverse (take (suc event_index) events)))
    else err no_such_event
