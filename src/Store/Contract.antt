-- ===== src/Store/Contract.antt =====
-- What those who read a store by a cursor (packages/sdk/src/core/events/event-store.ts) rely on, and
-- the memory store and the file store as such readers. Where a limit cuts a page short, `toIndex` is
-- here the index of the last event returned, as both stores and their tests have it; the comment on
-- `toIndex` in event-store.ts says it is the index of the last event in the store.
use roj.Base.{
  ℕ, zero, suc, ◌+◌, ◌-◌, ◌≤◌, ◌<◌, ◌≢◌, ◌≡◌, refl, ap, String, Option, none, some, List, [], ◌∷◌,
  if◌then◌else◌, leb, length, length-drop, length-take, take, drop, is_empty, get_or, arith,
  if_both,
}
use roj.Base.Int.{pos, negsuc, pred_ℤ, next_ℕ}
use roj.Event.{DomainEvent}
use roj.Store.{MemoryStore, load}
use roj.Store.Range.{LoadRangeOptions, LoadRangeResult, load_range, end_of, page}

abbrev pub start_of : LoadRangeOptions → ℕ
start_of o = next_ℕ (get_or o.since (negsuc 0))

pub end_of_bounds :
    (limit : Option ℕ) (from total : ℕ)
    → limit ≢ some 0
    → from < total
    → (from < end_of limit from total) × (end_of limit from total ≤ total)
end_of_bounds none from total h i = (i, omega arith)
end_of_bounds (some zero) from total h i = absurd (h refl)
end_of_bounds (some (suc n)) from total h i = (omega (arith, i), omega arith)

module _ {E : Type 0} where
  -- The result is a page of these events: the next ones after the cursor, with their place. It is
  -- empty only when there are none, and then the cursor is put at the end.
  pub record IsPage (o : LoadRangeOptions) (es : List E) (r : LoadRangeResult E) : Type 0 where
    pub count : ℕ
    pub events : r.events ≡ take count (drop (start_of o) es)
    pub counted : length r.events ≡ count
    pub from_index : 0 < count → r.from_index ≡ pos (start_of o)
    pub to_index : 0 < count → r.to_index ≡ pred_ℤ (start_of o + count)
    pub at_end : count ≡ 0 → (length es ≤ start_of o) × (r.to_index ≡ pred_ℤ (length es))

  pos_unless :
      (xs : List E) (n : ℕ) → 0 < length xs → (if is_empty xs then negsuc 0 else pos n) ≡ pos n
  pos_unless [] n h = absurd (omega (arith, h))
  pos_unless (x ∷ xs) n h = refl

  page-IsPage :
      (o : LoadRangeOptions) (es : List E) (end : ℕ)
      → start_of o < end
      → end ≤ length es
      → IsPage o es (page es (start_of o) end)
  page-IsPage o es end low high =
      let from = start_of o in
      let shown = take (end - from) (drop from es) in
      let size : length shown ≡ end - from =
        let rest = length-drop from es in
        let taken = length-take (end - from) (drop from es) in omega (arith, rest, taken, high) in
      let whole : end ≡ from + (end - from) = omega (arith, low) in
      record {
        count = end - from;
        events = refl;
        counted = size;
        from_index = λ h. pos_unless shown from (omega (arith, size, h));
        to_index = λ h. ap pred_ℤ whole;
        at_end = λ h. absurd (omega (arith, h, low));
      }

  -- The memory store returns such pages, unless nothing is asked for.
  pub load_range-IsPage :
      (o : LoadRangeOptions) (es : List E) → o.limit ≢ some 0 → IsPage o es (load_range o es)
  unfolding load_range
  load_range-IsPage o es h =
      let from = start_of o in
      if_both (IsPage o es) (leb (length es) from) _ _
        (λ e.
          let over : length es ≤ from = ground (arith, e) in
          record {
            count = 0;
            events = refl;
            counted = refl;
            from_index = λ l. absurd (omega (arith, l));
            to_index = λ l. absurd (omega (arith, l));
            at_end = λ _. (over, refl);
          })
        (λ e.
          let inside : from < length es = ground (arith, e) in
          let (low, high) = end_of_bounds o.limit from (length es) h inside in
          page-IsPage o es (end_of o.limit from (length es)) low high)

-- A store that is read by a cursor: what a log is to hold some events, and `loadRange`, which
-- returns nothing where it throws.
pub record EventReader (E : Type 0) : Type 1 where
  pub Log : Type 0
  pub Has : Log → List E → Type 0
  pub read_page : LoadRangeOptions → Log → Option (LoadRangeResult E)
  pub read_page-IsPage :
      (o : LoadRangeOptions) (log : Log) (es : List E)
      → Has log es
      → o.limit ≢ some 0
      → (r : LoadRangeResult E) × (read_page o log ≡ some r) × IsPage o es r

pub memory-IsPage :
    (id : String) (o : LoadRangeOptions) (store : MemoryStore) (es : List DomainEvent)
    → load store id ≡ es
    → o.limit ≢ some 0
    → (r : LoadRangeResult DomainEvent) × (some (load_range o (load store id)) ≡ some r)
      × IsPage o es r
memory-IsPage id o store es h k =
    (load_range o es, ap (λ l. some (load_range o l)) h, load_range-IsPage o es k)

abbrev pub memory_reader : String → EventReader DomainEvent
memory_reader id = record {
  Log = MemoryStore;
  Has = λ store es. load store id ≡ es;
  read_page = λ o store. some (load_range o (load store id));
  read_page-IsPage = memory-IsPage id;
}
