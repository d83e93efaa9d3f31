-- ===== src/Store/Range.antt =====
-- `loadRange` of packages/sdk/src/core/events/memory.ts.
use roj.Base.{
  ℕ, ◌+◌, ◌-◌, min, Option, none, some, List, [], if◌then◌else◌, leb, length, take, drop, is_empty,
  get_or,
}
use roj.Base.Int.{ℤ, pos, negsuc, pred_ℤ, next_ℕ}

pub record LoadRangeOptions : Type 0 where
  pub since : Option ℤ
  pub limit : Option ℕ

pub record LoadRangeResult (A : Type 0) : Type 0 where
  pub events : List A
  pub from_index : ℤ
  pub to_index : ℤ

-- The events from `from_index` up to `end_index`.
abbrev pub page : {A : Type 0} → List A → ℕ → ℕ → LoadRangeResult A
page all from_index end_index =
    let events = take (end_index - from_index) (drop from_index all) in
    record {
      events = events;
      from_index = if is_empty events then negsuc 0 else pos from_index;
      to_index = pred_ℤ end_index;
    }

abbrev pub end_of : Option ℕ → ℕ → ℕ → ℕ
end_of none from_index count = count
end_of (some limit) from_index count = min (from_index + limit) count

unfoldable pub load_range : {A : Type 0} → LoadRangeOptions → List A → LoadRangeResult A
load_range o all =
    let from_index = next_ℕ (get_or o.since (negsuc 0)) in
    if leb (length all) from_index
    then record { events = []; from_index = negsuc 0; to_index = pred_ℤ (length all) }
    else page all from_index (end_of o.limit from_index (length all))
