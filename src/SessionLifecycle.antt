-- ===== src/SessionLifecycle.antt =====
-- The method `getEvents` of packages/sdk/src/plugins/session-lifecycle/plugin.ts. Limits and offsets
-- are not negative, which the input schema does not ask for.
pub mod Cuts
pub mod Pages
use roj.Base.{
  ℕ, zero, suc, ◌+◌, max, String, Bool, true, false, ◌&&◌, ◌||◌, Option, none, some, List, [], ◌∷◌,
  map, if◌then◌else◌, ◌=ₛ◌, ltb, length, take, drop, keep, get_or,
}
use roj.Base.Int.{ℤ, pos, next_ℕ}
use roj.Store.Range.{LoadRangeOptions, LoadRangeResult}

pub record EventsQuery : Type 0 where
  pub since : Option ℤ
  pub limit : Option ℕ
  pub offset : Option ℕ
  pub event_type : Option String
  pub agent_id : Option String

pub record EventsPage (E : Type 0) : Type 0 where
  pub events : List E
  pub total : ℕ
  pub last_index : ℤ

abbrev pub default_event_page_size : ℕ
default_event_page_size = 100

abbrev pub default_event_read_window : ℕ
default_event_read_window = 1000

-- `!wanted || actual === wanted`
abbrev pub passes : Option String → Option String → Bool
passes none actual = true
passes (some wanted) none = wanted =ₛ ""
passes (some wanted) (some actual) = wanted =ₛ "" || actual =ₛ wanted

abbrev pub last_of : {A : Type 0} → List A → Option A
last_of [] = none
last_of (x ∷ []) = some x
last_of (x ∷ y ∷ ys) = last_of (y ∷ ys)

-- The offset counts only without a cursor.
abbrev pub offset_of : EventsQuery → ℕ
offset_of q = elim q.since [ none ↦ get_or q.offset 0 | some _ ↦ 0 ]

abbrev pub limit_of : EventsQuery → ℕ
limit_of q = get_or q.limit default_event_page_size

-- How far is read: a filter wants more than a page.
abbrev pub read_options : EventsQuery → LoadRangeOptions
read_options q = record {
  since = q.since;
  limit = some (max (get_or q.limit default_event_read_window) (offset_of q + limit_of q));
}

-- `lastOnPage.index` of a page that was cut off, else `toIndex`.
abbrev pub last_index_of : {E : Type 0} → Bool → Option (E × ℤ) → ℤ → ℤ
last_index_of true (some (e, index)) to_index = index
last_index_of _ _ to_index = to_index

module _ {E : Type 0} (type_of : E → String) (agent_of : E → Option String) where
  abbrev pub is_match : EventsQuery → E → Bool
  is_match q e = passes q.event_type (some (type_of e)) && passes q.agent_id (agent_of e)

  -- The events that pass, each with its absolute index.
  unfoldable pub matched : EventsQuery → ℤ → List E → List (E × ℤ)
  matched q index [] = []
  matched q index (e ∷ es) =
      let rest = matched q (pos (next_ℕ index)) es in
      if is_match q e then (e, index) ∷ rest else rest

  unfoldable pub page_of : EventsQuery → LoadRangeResult E → EventsPage E
  unfolding matched
  page_of q r =
      let all = matched q r.from_index r.events in
      let page = take (limit_of q) (drop (offset_of q) all) in
      let truncated = ltb (offset_of q + limit_of q) (length all) in
      record {
        events = map (λ (x : E × ℤ). x.0) page;
        total = length all;
        last_index = last_index_of truncated (last_of page) r.to_index;
      }

  -- Over `loadRange` of a store, which returns nothing where it throws.
  unfoldable pub get_events :
      (LoadRangeOptions → Option (LoadRangeResult E)) → EventsQuery → Option (EventsPage E)
  unfolding page_of
  get_events load q = elim (load (read_options q)) [ none ↦ none | some r ↦ some (page_of q r) ]
