-- ===== src/SessionLifecycle/Pages.antt =====
-- The cursor that `getEvents` returns never passes an event that was to be returned and was not.
use roj.Base.{
  ℕ, zero, suc, ◌+◌, ◌-◌, ◌≤◌, ◌<◌, ◌≢◌, max, ◌≡◌, refl, sym, ap, ◌∙◌, String, true, false, Option,
  none, some, List, [], ◌∷◌, map, ltb, length, length-take, length-drop, take, take-whole,
  take-take, drop, keep, get_or, arith, Bool-cases, inl, inr, dec_lt,
}
use mathlib.Core.Option.{some-injective}
use roj.Base.Int.{ℤ, negsuc, pred_ℤ, next_ℕ}
use roj.Store.Range.{LoadRangeResult}
use roj.Store.Contract.{start_of, IsPage, EventReader}
use roj.SessionLifecycle.Cuts.{matched-keep, cut}
use roj.SessionLifecycle.{
  EventsQuery, EventsPage, last_of, offset_of, limit_of, read_options, last_index_of, is_match,
  matched, page_of, get_events, default_event_page_size, default_event_read_window,
}

no_events : {A : Type 0} (xs : List A) → length xs ≡ 0 → xs ≡ []
no_events [] h = refl
no_events (x ∷ xs) h = absurd (omega (arith, h))

limit_of_positive : (limit : Option ℕ) → limit ≢ some 0 → 0 < get_or limit default_event_page_size
limit_of_positive none h = omega arith
limit_of_positive (some zero) h = absurd (h refl)
limit_of_positive (some (suc n)) h = omega arith

module _ {E : Type 0} (type_of : E → String) (agent_of : E → Option String) where
  -- The page brings the reader from an index on to another: it has what passes of the events between.
  pub record Brings (q : EventsQuery) (from : ℕ) (es : List E) (p : EventsPage E) : Type 0 where
    pub count : ℕ
    pub events : p.events ≡ keep (is_match type_of agent_of q) (take count (drop from es))
    pub last_index : p.last_index ≡ pred_ℤ (from + count)
    pub inside : from + count ≤ length es
    pub advances : from < length es → 0 < count

  module _ (q : EventsQuery) where
    -- The page of a request without an offset.
    module _ (es : List E) (r : LoadRangeResult E) (h : IsPage (read_options q) es r)
        (no_offset : offset_of q ≡ 0) where
      abbrev start : ℕ
      start = start_of (read_options q)

      abbrev found : List (E × ℤ)
      found = matched type_of agent_of q r.from_index r.events

      read_count : h.count ≤ length es - start
      read_count =
          let size = ap length (sym h.events) ∙ h.counted in
          let taken = length-take h.count (drop start es) in
          let rest = length-drop start es in omega (arith, size, taken, rest)

      some_read : start < length es → 0 < h.count
      some_read l = elim (dec_lt 0 h.count) [
        | yes p ↦ p
        | no p ↦
            let none_read : h.count ≡ 0 = omega (arith, p) in
            let over = (h.at_end none_read).0 in absurd (omega (arith, over, l))
      ]

      -- Nothing is cut off: the page stands for all events that were read.
      whole-Brings :
          ltb (offset_of q + limit_of q) (length found) ≡ false
          → start ≤ length es
          → Brings q start es (page_of type_of agent_of q r)
      unfolding page_of
      whole-Brings e i =
          let few : length found ≤ limit_of q = ground (arith, e, no_offset) in
          record {
            count = h.count;
            events =
                ap (λ o. map (λ (x : E × ℤ). x.0) (take (limit_of q) (drop o found))) no_offset
                ∙ ap (map (λ (x : E × ℤ). x.0)) (take-whole (limit_of q) found few)
                ∙ matched-keep type_of agent_of q r.from_index r.events
                ∙ ap (keep (is_match type_of agent_of q)) h.events;
            last_index =
                ap
                  (λ b.
                    last_index_of b (last_of (take (limit_of q) (drop (offset_of q) found)))
                      r.to_index)
                  e
                ∙ at_index;
            inside = let n = read_count in omega (arith, n, i);
            advances = λ l. some_read l;
          }
        where
          at_index : r.to_index ≡ pred_ℤ (start + h.count)
          at_index = elim (dec_lt 0 h.count) [
            | yes p ↦ h.to_index p
            | no p ↦
                let none_read : h.count ≡ 0 = omega (arith, p) in
                let (over, last) = h.at_end none_read in
                let same : length es ≡ start + h.count = omega (arith, over, i, none_read) in
                last ∙ ap pred_ℤ same
          ]

      -- The page is cut off: it stands for the events up to its last.
      cut-Brings :
          ltb (offset_of q + limit_of q) (length found) ≡ true
          → start ≤ length es
          → 0 < limit_of q
          → Brings q start es (page_of type_of agent_of q r)
      unfolding page_of
      cut-Brings e i l =
          let n = read_count in
          let placed = ap (λ z. matched type_of agent_of q z r.events) (h.from_index (got e)) in
          let size = ap length placed in
          let many : limit_of q ≤ length found = ground (arith, e, no_offset) in
          let c =
            cut type_of agent_of q (limit_of q) start r.events l (omega (arith, many, size)) in
          let within = c.within in
          let read = h.counted in
          record {
            count = c.count;
            events =
                ap (λ o. map (λ (x : E × ℤ). x.0) (take (limit_of q) (drop o found))) no_offset
                ∙ ap (λ m. map (λ (x : E × ℤ). x.0) (take (limit_of q) m)) placed
                ∙ c.shown
                ∙ ap (λ m. keep (is_match type_of agent_of q) (take c.count m)) h.events
                ∙ ap (keep (is_match type_of agent_of q))
                    (take-take c.count h.count (drop start es) (omega (arith, within, read)));
            last_index =
                ap
                  (λ b.
                    last_index_of b (last_of (take (limit_of q) (drop (offset_of q) found)))
                      r.to_index)
                  e
                ∙ ap
                    (λ o.
                      last_index_of true (last_of (take (limit_of q) (drop o found))) r.to_index)
                    no_offset
                ∙ ap (λ m. last_index_of true (last_of (take (limit_of q) m)) r.to_index) placed
                ∙ ap (λ x. last_index_of true x r.to_index) c.last_at.1;
            inside = omega (arith, n, i, within, read);
            advances = λ _. c.some_count;
          }
        where
          got : ltb (offset_of q + limit_of q) (length found) ≡ true → 0 < h.count
          got e = elim (dec_lt 0 h.count) [
            | yes p ↦ p
            | no p ↦
                let empty : r.events ≡ [] = no_events r.events (omega (arith, p, h.counted)) in
                let none_found =
                  ap (λ l. length (matched type_of agent_of q r.from_index l)) empty in
                absurd (ground (arith, e, none_found))
          ]

      page_of-Brings :
          start ≤ length es → 0 < limit_of q → Brings q start es (page_of type_of agent_of q r)
      page_of-Brings i l = elim (Bool-cases (ltb (offset_of q + limit_of q) (length found))) [
        | inl e ↦ cut-Brings e i l
        | inr e ↦ whole-Brings e i
      ]

-- A request without an offset that asks for something, to a store that keeps its promise, is
-- answered by a page that brings the reader from the cursor on to another place: the events of the
-- page are those between that pass the filters, in order and whole, the index that is returned is
-- of the last event before that place, and the place is further on unless the log is at its end. So
-- no event that passes the filters is skipped, although a page may be cut off and a filter may
-- leave a page empty. The cursor is not past the end of the log.
pub get_events-Brings :
    {E : Type 0} (type_of : E → String) (agent_of : E → Option String) (reader : EventReader E)
    → (q : EventsQuery) (log : reader.Log) (es : List E) → reader.Has log es
    → offset_of q ≡ 0
    → q.limit ≢ some 0
    → next_ℕ (get_or q.since (negsuc 0)) ≤ length es
    → (p : EventsPage E) × (get_events type_of agent_of (λ o. reader.read_page o log) q ≡ some p)
      × Brings type_of agent_of q (next_ℕ (get_or q.since (negsuc 0))) es p
unfolding get_events
get_events-Brings type_of agent_of reader q log es has no_offset asks i =
    let positive = limit_of_positive q.limit asks in
    let (r, read, page) =
      reader.read_page-IsPage (read_options q) log es has
        (λ f. absurd (reads (some-injective _ _ f))) in
    (
      page_of type_of agent_of q r,
      rw (get_events, read),
      page_of-Brings type_of agent_of q es r page no_offset i positive,
    )
  where
    reads : max (get_or q.limit default_event_read_window) (offset_of q + limit_of q) ≡ 0 → ⊥
    reads e = let positive = limit_of_positive q.limit asks in omega (arith, positive, e)
