-- ===== src/Session/Fork/Snapshots.antt =====
-- The backward scan of `findSnapshotRefsAtIndex` against a plain forward reading of the log.
use mathlib.Core.List.{reverse, reverse-cons}
use roj.Base.{
  ℕ, suc, ◌≡◌, true, refl, sym, ap, ◌∙◌, String, Option, none, some, List, [], ◌∷◌, ◌++◌, take,
  length, or_else, arith, Bool-cases, inl, inr, ok, err, ltb, if◌then◌else◌,
}
use roj.Agent.{truthy}
use roj.Event.{DomainEvent, ToolDone}
use roj.Session.Fork.{
  SnapshotRefs, done_of, absorb, stops, scan_refs, find_snapshot_refs_at_index, no_such_event,
}

-- What an event says of one kind of snapshot.
abbrev pub ref_in : (ToolDone → Option String) → Option ToolDone → Option String
ref_in kind none = none
ref_in kind (some done) = truthy (kind done)

-- The last snapshot that a log names, read forwards.
pub last_ref : (ToolDone → Option String) → Option String → List DomainEvent → Option String
last_ref kind seen [] = seen
last_ref kind seen (e ∷ es) = last_ref kind (or_else (ref_in kind (done_of e.body)) seen) es

first_ref : (ToolDone → Option String) → List DomainEvent → Option String
first_ref kind [] = none
first_ref kind (e ∷ older) = or_else (ref_in kind (done_of e.body)) (first_ref kind older)

or_else_assoc : (a b c : Option String) → or_else (or_else a b) c ≡ or_else a (or_else b c)
or_else_assoc none b c = refl
or_else_assoc (some a) b c = refl

or_else-none : (a : Option String) → or_else a none ≡ a
or_else-none none = refl
or_else-none (some a) = refl

first_ref-append :
    (kind : ToolDone → Option String) (xs : List DomainEvent) (e : DomainEvent)
    → first_ref kind (xs ++ e ∷ []) ≡ or_else (first_ref kind xs) (ref_in kind (done_of e.body))
unfolding first_ref
first_ref-append kind [] e = or_else-none _
first_ref-append kind (x ∷ xs) e =
    ap (or_else (ref_in kind (done_of x.body))) (first_ref-append kind xs e)
    ∙ sym (or_else_assoc (ref_in kind (done_of x.body)) _ _)

last_ref-reverse :
    (kind : ToolDone → Option String) (seen : Option String) (es : List DomainEvent)
    → last_ref kind seen es ≡ or_else (first_ref kind (reverse es)) seen
unfolding last_ref first_ref
last_ref-reverse kind seen [] = refl
last_ref-reverse kind seen (e ∷ es) =
    last_ref-reverse kind (or_else (ref_in kind (done_of e.body)) seen) es
    ∙ sym (or_else_assoc (first_ref kind (reverse es)) _ _)
    ∙ ap (λ r. or_else r seen)
        (sym (ap (first_ref kind) (reverse-cons e es) ∙ first_ref-append kind (reverse es) e))

abbrev refs_of : Option ToolDone → Option String → Option String → SnapshotRefs → SnapshotRefs
refs_of d session workspace refs = record {
  session_ref = or_else refs.session_ref (or_else (ref_in (λ d. d.session_ref) d) session);
  workspace_ref = or_else refs.workspace_ref (or_else (ref_in (λ d. d.workspace_ref) d) workspace);
}

stop_early :
    (d : Option ToolDone) (refs : SnapshotRefs) (session workspace : Option String)
    → stops d (absorb d refs) ≡ true
    → absorb d refs ≡ refs_of d session workspace refs
stop_early none refs session workspace h = cc
stop_early (some d) refs session workspace h = ground arith

go_on :
    (d : Option ToolDone) (refs : SnapshotRefs) (session workspace : Option String)
    → refs_of none session workspace (absorb d refs) ≡ refs_of d session workspace refs
go_on none refs session workspace = refl
go_on (some d) refs session workspace = ground arith

-- Stopping once both are found loses nothing.
scan_refs_lem :
    (refs : SnapshotRefs) (older : List DomainEvent)
    → scan_refs refs older
      ≡ refs_of none
          (first_ref (λ d. d.session_ref) older)
          (first_ref (λ d. d.workspace_ref) older)
          refs
unfolding scan_refs first_ref
scan_refs_lem refs [] = ground arith
scan_refs_lem refs (e ∷ older) =
    let ih = scan_refs_lem (absorb (done_of e.body) refs) older in
    elim (Bool-cases (stops (done_of e.body) (absorb (done_of e.body) refs))) [
      | inl h ↦ rw h (stop_early (done_of e.body) refs _ _ h)
      | inr h ↦ rw h (ih ∙ go_on (done_of e.body) refs _ _)
    ]

-- For an index inside the log, the references found are the last session snapshot and the last
-- workspace snapshot that a tool event up to the index names (an empty name counts as none); past
-- the end of the log the function throws.
pub find_snapshot_refs_lem :
    (events : List DomainEvent) (index : ℕ)
    → find_snapshot_refs_at_index events index ≡ (
        if ltb index (length events)
        then ok (record {
          session_ref = last_ref (λ d. d.session_ref) none (take (suc index) events);
          workspace_ref = last_ref (λ d. d.workspace_ref) none (take (suc index) events);
        })
        else err no_such_event)
unfolding find_snapshot_refs_at_index
find_snapshot_refs_lem events index =
    let older = reverse (take (suc index) events) in
    ap (λ refs. if ltb index (length events) then ok refs else err no_such_event)
      (scan_refs_lem _ older
        ∙ rw (
          last_ref-reverse (λ d. d.session_ref) none (take (suc index) events),
          last_ref-reverse (λ d. d.workspace_ref) none (take (suc index) events),
          or_else-none (first_ref (λ d. d.session_ref) older),
          or_else-none (first_ref (λ d. d.workspace_ref) older),
        ))
