-- ===== src/Activity/Preserved.antt =====
-- Every call keeps counts and reasons in agreement with the open leases.
use roj.Base.{
  ℕ, refl, String, Bool, true, false, ◌&&◌, ◌||◌, none, List, [], ◌∷◌, if◌then◌else◌, ◌==◌, lookup,
  ok, err, Bool-cases, inl, inr,
}
use roj.Activity.{
  is_revoked, RuntimeState, parking, unloading, revoked, disposed, Activity, fresh_activity,
  take_lease, try_acquire, try_operation, try_acquire_in, try_operation_in, begin_parking,
  begin_teardown, begin_legacy_teardown, teardown_in, revoke, try_begin_unload, begin_forced_unload,
  mark_disposed, taken, is_ready, is_parking, is_unloading, allowed,
}
use roj.Activity.Leases.{Inv, take_lease-Inv, release-Inv}
use roj.Activity.Calls.{
  Call, acquire, operate, acquire_in, operate_in, free, park, teardown, legacy_teardown, revoke_all,
  unload, force_unload, dispose, after_guard, after_taking, perform, run_calls,
}

Inv-state : (a : Activity) (s : RuntimeState) → Inv a → Inv (record a { state = s })
Inv-state a s h = record { counted = h.counted; by_reason = h.by_reason; live_open = h.live_open }

parked-Inv :
    (b : Bool) (a : Activity) (s e : RuntimeState)
    → Inv a
    → Inv (after_guard a (if b then ok (record a { state = s }) else err e))
parked-Inv true a s e h = Inv-state a s h
parked-Inv false a s e h = h

moved-Inv :
    (b : Bool) (a : Activity) (s : RuntimeState)
    → Inv a
    → Inv (if b then record a { state = s } else a)
moved-Inv true a s h = Inv-state a s h
moved-Inv false a s h = h

taken_if-Inv :
    (b scoped : Bool) (now : ℕ) (reason : String) (a : Activity)
    → Inv a
    → Inv (if b then taken (take_lease now scoped reason a) else (none, a)).1
unfolding take_lease
taken_if-Inv true scoped now reason a h = take_lease-Inv now scoped reason a h
taken_if-Inv false scoped now reason a h = h

teardown_in-Inv :
    (b : Bool) (now : ℕ) (a : Activity) → Inv a → Inv (after_taking a (teardown_in b now a))
unfolding take_lease
teardown_in-Inv true now a h = take_lease-Inv now true "teardown" a h
teardown_in-Inv false now a h = h

perform-Inv : (now : ℕ) (c : Call) (a : Activity) → Inv a → Inv (perform now c a)
unfolding perform try_acquire try_operation try_acquire_in try_operation_in begin_parking
    begin_teardown begin_legacy_teardown revoke try_begin_unload begin_forced_unload mark_disposed
perform-Inv now (acquire reason) a h = taken_if-Inv (is_ready a.state) false now reason a h
perform-Inv now (operate reason) a h = taken_if-Inv (is_ready a.state) true now reason a h
perform-Inv now (acquire_in scope reason) a h = taken_if-Inv (allowed scope a) false now reason a h
perform-Inv now (operate_in scope reason) a h = taken_if-Inv (allowed scope a) true now reason a h
perform-Inv now (free lease) a h = release-Inv now lease a h
perform-Inv now park a h = parked-Inv (is_ready a.state) a parking a.state h
perform-Inv now teardown a h = teardown_in-Inv (is_parking a.state) now a h
perform-Inv now legacy_teardown a h = teardown_in-Inv (is_unloading a.state) now a h
perform-Inv now revoke_all a h = Inv-state a revoked h
perform-Inv now unload a h = elim (Bool-cases (is_ready a.state && a.active_count == 0)) [
  | inl e ↦ rw (perform, try_begin_unload, e) (Inv-state a unloading h)
  | inr e ↦ rw (perform, try_begin_unload, e) h
]
perform-Inv now force_unload a h = moved-Inv (is_parking a.state || is_ready a.state) a unloading h
perform-Inv now dispose a h = elim (Bool-cases (is_revoked a.state)) [
  | inl e ↦ rw (mark_disposed, e) h
  | inr e ↦ rw (mark_disposed, e) (Inv-state a disposed h)
]

-- Any calls at any times keep this.
pub run_calls-Inv : (calls : List (ℕ × Call)) (a : Activity) → Inv a → Inv (run_calls calls a)
unfolding run_calls
run_calls-Inv [] a h = h
run_calls-Inv ((now, c) ∷ cs) a h = run_calls-Inv cs (perform now c a) (perform-Inv now c a h)

fresh_activity-Inv : (now : ℕ) → Inv (fresh_activity now)
unfolding lookup
fresh_activity-Inv now = record { counted = refl; by_reason = λ r. refl; live_open = tt }

-- After any calls at any times, in any order, on a controller from its construction on: the count
-- of active leases is the number of leases that were taken and not released, the reasons list
-- exactly the reasons of those, each with their number, and the scope of an operation lives only
-- while its lease is open.
pub run_calls-fresh :
    (calls : List (ℕ × Call)) (now : ℕ) → Inv (run_calls calls (fresh_activity now))
run_calls-fresh calls now = run_calls-Inv calls (fresh_activity now) (fresh_activity-Inv now)
