-- ===== src/DebugStore/Watch.antt =====
-- From the first load on, whatever is appended between the polls.
use roj.Base.{
  ℕ, zero, suc, ◌+◌, ◌≤◌, ◌<◌, ◌≢◌, ◌≡◌, refl, sym, ap, ◌∙◌, String, Option, List, [], ◌∷◌, ◌++◌,
  length, take, drop, take-whole, keep, keep_all, is_empty, arith, if_both, dec_lt,
}
use mathlib.Core.Option.{some-injective}
use roj.Base.Int.{pred_ℤ, next_ℕ, next_ℕ-pred_ℤ}
use roj.Store.Contract.{EventReader}
use roj.SessionLifecycle.{EventsQuery, EventsPage, is_match, get_events}
use roj.SessionLifecycle.Pages.{get_events-Brings}
use roj.DebugStore.{
  EventStoreState, Views, poll_query, load_query, apply_all, starts_session, loaded, load_session,
  fetch_new_events,
}
use roj.DebugStore.Follows.{
  Begins, Follows, Follows-append, receive_page-Follows, starts_session-take, nothing_in,
}

module _ {E P : Type 0} (v : Views E P) (type_of : E → String) (agent_of : E → Option String)
    (reader : EventReader E) where
  -- The server's answer from a log.
  abbrev pub answer : reader.Log → EventsQuery → Option (EventsPage E)
  answer log = get_events type_of agent_of (λ o. reader.read_page o log)

  -- A poll goes on, and gets further unless it was at the end.
  pub fetch_new_events-Follows :
      (log : reader.Log) (es : List E) (s : EventStoreState E P)
      → reader.Has log es
      → Begins v es
      → (h : Follows v es s)
      → (f : Follows v es (fetch_new_events v (answer log) s)) × (h.seen ≤ f.seen)
        × (h.seen < length es → h.seen < f.seen)
  unfolding fetch_new_events
  fetch_new_events-Follows log es s has begins h =
      let q = poll_query s.last_index in
      let at : next_ℕ s.last_index ≡ h.seen = ap next_ℕ h.last_index ∙ next_ℕ-pred_ℤ h.seen in
      let inside = h.inside in
      let (page, got, b) =
        get_events-Brings type_of agent_of reader q log es has refl
          (λ f. thousand (some-injective 1000 0 f)) (omega (arith, at, inside)) in
      let count = b.count in
      let far = b.inside in
      let (f, n) =
        receive_page-Follows v es s h page count
          (b.events
            ∙ keep_all (is_match type_of agent_of q) (take count (drop (next_ℕ s.last_index) es))
                (λ e. refl)
            ∙ ap (λ k. take count (drop k es)) at)
          (b.last_index ∙ ap (λ k. pred_ℤ (k + count)) at) (omega (arith, far, at)) begins in
      rw (got, fetch_new_events)
        (
          f,
          omega (arith, n),
          λ l. let more = b.advances (omega (arith, l, at)) in omega (arith, n, more),
        )
    where
      thousand : ◌≢◌ {A = ℕ} 1000 0
      thousand h = absurd (omega (arith, h))

  loaded-Follows :
      (es : List E) (page : EventsPage E) (count : ℕ)
      → Begins v es
      → count ≤ length es
      → page.events ≡ take count es
      → page.last_index ≡ pred_ℤ count
      → Follows v es (loaded v (keep v.is_domain_event page.events) page.last_index)
  unfolding apply_all
  loaded-Follows es page count begins inside brought placed =
      let valid = keep v.is_domain_event page.events in
      let kept : valid ≡ keep v.is_domain_event (take count es) =
        ap (keep v.is_domain_event) brought in
      if_both (Follows v es) (is_empty valid) _ _
        (λ e. record {
          seen = count;
          inside = inside;
          last_index = placed;
          events = sym (nothing_in v valid e) ∙ kept;
          projections = refl;
        })
        (λ e.
          if_both (Follows v es) (starts_session v valid) _ _
            (λ b. record {
              seen = count;
              inside = inside;
              last_index = placed;
              events = kept;
              projections = refl;
            })
            (λ b.
              let does =
                ap (starts_session v) kept
                ∙ starts_session-take v es count begins (ap is_empty (sym kept) ∙ e) in
              absurd (ground (arith, b, does))))

  -- The first load puts the store on the log's way.
  pub load_session-Follows :
      (log : reader.Log) (es : List E)
      → reader.Has log es
      → Begins v es
      → Follows v es (load_session v (answer log))
  unfolding load_session
  load_session-Follows log es has begins =
      let (page, got, b) =
        get_events-Brings type_of agent_of reader load_query log es has refl
          (λ f. not_zero (some-injective 10000 0 f)) (omega arith) in
      let far = b.inside in
      let zero_add : 0 + b.count ≡ b.count = omega arith in
      rw (got, load_session)
        (loaded-Follows es page b.count begins (omega (arith, far))
          (b.events ∙ keep_all (is_match type_of agent_of load_query) (take b.count es) (λ e. refl))
          (b.last_index ∙ ap pred_ℤ zero_add))
    where
      not_zero : ◌≢◌ {A = ℕ} 10000 0
      not_zero h = absurd (omega (arith, h))

  -- One poll after the other; before each the log may have gained events.
  abbrev pub watch : List (reader.Log × List E) → EventStoreState E P → EventStoreState E P
  watch [] s = s
  watch ((log, more) ∷ rest) s = watch rest (fetch_new_events v (answer log) s)

  abbrev pub grown : List E → List (reader.Log × List E) → List E
  grown es [] = es
  grown es ((log, more) ∷ rest) = grown (es ++ more) rest

  -- At each poll the log holds what it held before, and what it gained.
  abbrev pub Grows : List E → List (reader.Log × List E) → Type 0
  Grows es [] = Unit
  Grows es ((log, more) ∷ rest) =
      reader.Has log (es ++ more) × Begins v (es ++ more) × Grows (es ++ more) rest

  watch_from :
      (seen_at : List (reader.Log × List E)) (es : List E) (s : EventStoreState E P)
      → Grows es seen_at
      → Follows v es s
      → Follows v (grown es seen_at) (watch seen_at s)
  watch_from [] es s g h = h
  watch_from ((log, more) ∷ rest) es s (has, begins, g) h =
      let (f, _, _) =
        fetch_new_events-Follows log (es ++ more) s has begins (Follows-append v es more s h) in
      watch_from rest (es ++ more) (fetch_new_events v (answer log) s) g f

  -- The store of a session that is loaded from a log and then polls it has, after any polls, each
  -- event that the interface knows once, in order, up to the index that it has reached, and its
  -- projections are what those events make of the initial ones: whatever is appended between the
  -- polls, nothing is missed, and nothing is applied twice. The log begins with the creation of its
  -- session, the store of events keeps its promise, and each response comes before the next poll.
  pub watch-Follows :
      (log : reader.Log) (es : List E) (seen_at : List (reader.Log × List E))
      → reader.Has log es
      → Begins v es
      → Grows es seen_at
      → Follows v (grown es seen_at) (watch seen_at (load_session v (answer log)))
  watch-Follows log es seen_at has begins g =
      watch_from seen_at es (load_session v (answer log)) g (load_session-Follows log es has begins)

  abbrev pub polls : ℕ → reader.Log → EventStoreState E P → EventStoreState E P
  polls zero log s = s
  polls (suc n) log s = polls n log (fetch_new_events v (answer log) s)

  further :
      (n from to total : ℕ)
      → total ≤ suc n + from
      → from ≤ to
      → (from < total → from < to)
      → total ≤ n + to
  further n from to total i l m = elim (dec_lt from total) [
    | yes p ↦ let more = m p in omega (arith, i, more)
    | no p ↦ omega (arith, p, l)
  ]

  polls_reach :
      (n : ℕ) (log : reader.Log) (es : List E) (s : EventStoreState E P)
      → reader.Has log es
      → Begins v es
      → (h : Follows v es s) → length es ≤ n + h.seen
      → (f : Follows v es (polls n log s)) × (f.seen ≡ length es)
  polls_reach zero log es s has begins h i = let inside = h.inside in (h, omega (arith, i, inside))
  polls_reach (suc n) log es s has begins h i =
      let (f, least_f, more) = fetch_new_events-Follows log es s has begins h in
      let least : length es ≤ n + f.seen = further n h.seen f.seen (length es) i least_f more in
      polls_reach n log es (fetch_new_events v (answer log) s) has begins f least

  -- From a state that follows a log, when the log stays as it is for as many polls as there are
  -- events that it has not reached, the store has all events that the interface knows, its index is
  -- the last one of the log, and its projections are what those events make of the initial ones. The
  -- log begins with the creation of its session, and the store of events keeps its promise.
  pub polls-caught_up :
      (n : ℕ) (log : reader.Log) (es : List E) (s : EventStoreState E P)
      → reader.Has log es
      → Begins v es
      → (h : Follows v es s) → length es ≤ n + h.seen
      → ((polls n log s).events ≡ keep v.is_domain_event es)
        × ((polls n log s).last_index ≡ pred_ℤ (length es))
        × ((polls n log s).projections ≡ apply_all v v.initial (keep v.is_domain_event es))
  polls-caught_up n log es s has begins h i =
      let (f, end) = polls_reach n log es s has begins h i in
      let all =
        f.events ∙ ap (keep v.is_domain_event) (take-whole f.seen es (omega (arith, end))) in
      (all, f.last_index ∙ ap pred_ℤ end, f.projections ∙ ap (apply_all v v.initial) all)
