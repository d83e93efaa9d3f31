-- ===== src/FileStore/Range.antt =====
-- `readRange` of packages/sdk/src/core/events/file.ts, given the number of events that the metadata
-- counts.
use roj.Base.{
  ℕ, zero, suc, ◌+◌, ◌-◌, ◌*◌, min, Bool, ◌||◌, Option, none, some, List, [], ◌∷◌, if◌then◌else◌,
  ltb, leb, length, take, drop, is_empty, get_or, Result, ok, err,
}
use roj.Base.Int.{pos, negsuc, pred_ℤ, next_ℕ}
use roj.Store.Range.{LoadRangeOptions, LoadRangeResult}
use roj.FileStore.{Bytes, Text, Codec, FileLog, LogError, unreadable, read_events}
use roj.FileStore.Tail.{read_last_lines}

abbrev pub needed_count : Option ℕ → ℕ → ℕ
needed_count none available = available
needed_count (some limit) available = min limit available

-- `limit ? fromIndex + limit : undefined`
abbrev pub slice : {E : Type 0} → Option ℕ → ℕ → List E → List E
slice none from_index all = drop from_index all
slice (some zero) from_index all = drop from_index all
slice (some (suc n)) from_index all = take (suc n) (drop from_index all)

module _ {E : Type 0} where
  abbrev pub sliced : ℕ → ℕ → List E → LoadRangeResult E
  sliced from_index total events = record {
    events = events;
    from_index = if is_empty events then negsuc 0 else pos from_index;
    to_index = if is_empty events then pred_ℤ total else pred_ℤ (from_index + length events);
  }

  -- The events are the last ones of the store.
  abbrev pub last_ones : ℕ → List E → LoadRangeResult E
  last_ones total events = record {
    events = events;
    from_index = if is_empty events then negsuc 0 else pos (total - length events);
    to_index = pred_ℤ total;
  }

module _ {E : Type 0} (c : Codec E) where
  -- Every line has to parse.
  unfoldable pub parse_each : List Text → Option (List E)
  parse_each [] = some []
  parse_each (line ∷ lines) =
      let rest = parse_each lines in
      elim (c.parse line) [
        | none ↦ none
        | some e ↦ elim rest [ none ↦ none | some es ↦ some (e ∷ es) ]
      ]

  abbrev pub from_all :
      Option ℕ → ℕ → ℕ → Result LogError (List E) → Result LogError (LoadRangeResult E)
  from_all limit from_index total (ok all) =
      ok (sliced from_index total (slice limit from_index all))
  from_all limit from_index total (err x) = err x

  abbrev pub parsed : ℕ → Option (List E) → Result LogError (LoadRangeResult E)
  parsed total none = err unreadable
  parsed total (some events) = ok (last_ones total events)

  abbrev pub from_tail : ℕ → ℕ → Option Bytes → Result LogError (LoadRangeResult E)
  from_tail needed total none =
      ok (record { events = []; from_index = negsuc 0; to_index = negsuc 0 })
  from_tail needed total (some file) = parsed total (parse_each (read_last_lines c file needed))

  unfoldable pub read_range :
      Bool → ℕ → LoadRangeOptions → FileLog → Result LogError (LoadRangeResult E)
  unfolding read_events read_last_lines parse_each
  read_range can_read total o log =
      let from_index = next_ℕ (get_or o.since (negsuc 0)) in
      let needed = needed_count o.limit (total - from_index) in
      if leb total from_index
      then ok (record { events = []; from_index = negsuc 0; to_index = pred_ℤ total })
      else if ltb total (needed * 2) || ltb (from_index + needed) total
      then from_all o.limit from_index total (read_events c can_read log).0
      else if can_read
      then from_tail needed total log.bytes
      else err unreadable
