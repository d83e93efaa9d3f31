-- ===== src/Activity.antt =====
-- The guard of a resident session runtime, packages/sdk/src/core/sessions/runtime-activity.ts:
-- `SessionRuntimeActivityController`. A lease is known by a number, its release is a call with that
-- number, and the scope of an operation has the number of its lease; the clock is an argument.
-- `live` and `released` of the closures are the tables of leases here. Waiters are left out.
pub mod Leases
pub mod Calls
pub mod Preserved
pub mod Lifecycle
pub mod Owned
pub mod Scopes
pub mod Unload
use roj.Base.{
  ℕ, suc, ◌+◌, ◌-◌, String, Bool, true, false, not, ◌&&◌, ◌||◌, Option, none, some, List, [], ◌∷◌,
  if◌then◌else◌, ◌==◌, leb, Dict, lookup, insert, remove, or_zero, Result, ok, err,
}

pub data RuntimeState : Type 0 where
  ready parking unloading revoked disposed : RuntimeState

-- One lease that was taken: what `takeLease` and `createOperation` close over.
pub record Lease : Type 0 where
  pub number : ℕ
  pub reason : String
  pub released : Bool
  -- The scope of an operation, while its `live` is set.
  pub live : Bool

pub record Activity : Type 0 where
  pub state : RuntimeState
  pub active_count : ℕ
  pub reasons : Dict ℕ
  pub last_activity_at : ℕ
  pub leases : List Lease

abbrev pub fresh_activity : ℕ → Activity
fresh_activity now = record {
  state = ready;
  active_count = 0;
  reasons = [];
  last_activity_at = now;
  leases = [];
}

abbrev pub is_ready : RuntimeState → Bool
is_ready ready = true
is_ready _ = false

abbrev pub is_parking : RuntimeState → Bool
is_parking parking = true
is_parking _ = false

abbrev pub is_unloading : RuntimeState → Bool
is_unloading unloading = true
is_unloading _ = false

-- The states in which the scope of a live operation still admits work.
abbrev pub admits : RuntimeState → Bool
admits s = is_ready s || is_parking s || is_unloading s

-- The numbers are given in order.
abbrev pub next_number : List Lease → ℕ
next_number [] = 0
next_number (l ∷ ls) = suc l.number

-- `takeLease`, for an operation with its scope or without.
unfoldable pub take_lease : ℕ → Bool → String → Activity → ℕ × Activity
take_lease now scoped reason a =
    let number = next_number a.leases in
    (
      number,
      record a {
        active_count = a.active_count + 1;
        reasons = insert reason (or_zero (lookup reason a.reasons) + 1) a.reasons;
        last_activity_at = now;
        leases =
            record { number = number; reason = reason; released = false; live = scoped } ∷ a.leases;
      },
    )

unfoldable pub find_lease : ℕ → List Lease → Option Lease
find_lease number [] = none
find_lease number (l ∷ ls) =
    let rest = find_lease number ls in if l.number == number then some l else rest

unfoldable pub close_lease : ℕ → List Lease → List Lease
close_lease number [] = []
close_lease number (l ∷ ls) =
    let rest = close_lease number ls in
    if l.number == number then record l { released = true; live = false } ∷ ls else l ∷ rest

abbrev pub uncount : String → Dict ℕ → Dict ℕ
uncount reason reasons =
    let count = or_zero (lookup reason reasons) in
    if leb count 1 then remove reason reasons else insert reason (count - 1) reasons

-- The closure that `takeLease` returns; `release` of an operation ends its scope as well.
unfoldable pub release : ℕ → ℕ → Activity → Activity
unfolding find_lease close_lease
release now number a = elim (find_lease number a.leases) [
  | none ↦ a
  | some l ↦ if l.released then a else record a {
    active_count = a.active_count - 1;
    reasons = uncount l.reason a.reasons;
    last_activity_at = now;
    leases = close_lease number a.leases;
  }
]

abbrev pub Attempt : Type 0
Attempt = Option ℕ × Activity

abbrev pub taken : ℕ × Activity → Attempt
taken (number, a) = (some number, a)

-- `tryAcquire` and `tryOperation` of the controller.
unfoldable pub try_acquire : ℕ → String → Activity → Attempt
unfolding take_lease
try_acquire now reason a =
    if is_ready a.state then taken (take_lease now false reason a) else (none, a)

unfoldable pub try_operation : ℕ → String → Activity → Attempt
unfolding take_lease
try_operation now reason a =
    if is_ready a.state then taken (take_lease now true reason a) else (none, a)

-- `allowed` of the scope with the number `scope`.
abbrev pub is_live : Option Lease → Bool
is_live none = false
is_live (some l) = l.live

unfoldable pub allowed : ℕ → Activity → Bool
unfolding find_lease
allowed scope a = is_live (find_lease scope a.leases) && admits a.state

-- The same two of a scope.
unfoldable pub try_acquire_in : ℕ → ℕ → String → Activity → Attempt
unfolding take_lease allowed
try_acquire_in scope now reason a =
    if allowed scope a then taken (take_lease now false reason a) else (none, a)

unfoldable pub try_operation_in : ℕ → ℕ → String → Activity → Attempt
unfolding take_lease allowed
try_operation_in scope now reason a =
    if allowed scope a then taken (take_lease now true reason a) else (none, a)

-- What is thrown: `SessionRuntimeUnavailableError` with the state it carries.
abbrev pub Guarded : Type 0
Guarded = Result RuntimeState Activity

unfoldable pub begin_parking : Activity → Guarded
begin_parking a = if is_ready a.state then ok (record a { state = parking }) else err a.state

abbrev pub teardown_in : Bool → ℕ → Activity → Result RuntimeState (ℕ × Activity)
teardown_in allowed_now now a =
    if allowed_now then ok (take_lease now true "teardown" a) else err a.state

unfoldable pub begin_teardown : ℕ → Activity → Result RuntimeState (ℕ × Activity)
unfolding take_lease
begin_teardown now a = teardown_in (is_parking a.state) now a

unfoldable pub begin_legacy_teardown : ℕ → Activity → Result RuntimeState (ℕ × Activity)
unfolding take_lease
begin_legacy_teardown now a = teardown_in (is_unloading a.state) now a

unfoldable pub revoke : Activity → Activity
revoke a = record a { state = revoked }

unfoldable pub try_begin_unload : Activity → Bool × Activity
try_begin_unload a =
    if is_ready a.state && a.active_count == 0
    then (true, record a { state = unloading })
    else (false, a)

unfoldable pub begin_forced_unload : Activity → Activity
begin_forced_unload a =
    if is_parking a.state || is_ready a.state then record a { state = unloading } else a

abbrev pub is_revoked : RuntimeState → Bool
is_revoked revoked = true
is_revoked _ = false

unfoldable pub mark_disposed : Activity → Activity
mark_disposed a = if is_revoked a.state then a else record a { state = disposed }
