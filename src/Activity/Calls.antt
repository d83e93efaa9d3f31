-- ===== src/Activity/Calls.antt =====
-- The calls of a controller, in any order.
use roj.Base.{ℕ, String, List, [], ◌∷◌, Result, ok, err}
use roj.Activity.{
  RuntimeState, Activity, release, try_acquire, try_operation, try_acquire_in, try_operation_in,
  begin_parking, begin_teardown, begin_legacy_teardown, revoke, try_begin_unload,
  begin_forced_unload, mark_disposed, Guarded,
}

-- The calls that a controller takes, on itself, on a lease and on the scope of an operation.
pub data Call : Type 0 where
  acquire operate : (reason : String) → Call
  acquire_in operate_in : (scope : ℕ) (reason : String) → Call
  free : (lease : ℕ) → Call
  park teardown legacy_teardown revoke_all unload force_unload dispose : Call

abbrev pub after_guard : Activity → Guarded → Activity
after_guard a (ok b) = b
after_guard a (err e) = a

abbrev pub after_taking : Activity → Result RuntimeState (ℕ × Activity) → Activity
after_taking a (ok (number, b)) = b
after_taking a (err e) = a

-- What is left after a call at a time; one that throws or is refused leaves the state.
unfoldable pub perform : ℕ → Call → Activity → Activity
perform now (acquire reason) a = (try_acquire now reason a).1
perform now (operate reason) a = (try_operation now reason a).1
perform now (acquire_in scope reason) a = (try_acquire_in scope now reason a).1
perform now (operate_in scope reason) a = (try_operation_in scope now reason a).1
perform now (free lease) a = release now lease a
perform now park a = after_guard a (begin_parking a)
perform now teardown a = after_taking a (begin_teardown now a)
perform now legacy_teardown a = after_taking a (begin_legacy_teardown now a)
perform now revoke_all a = revoke a
perform now unload a = (try_begin_unload a).1
perform now force_unload a = begin_forced_unload a
perform now dispose a = mark_disposed a

unfoldable pub run_calls : List (ℕ × Call) → Activity → Activity
unfolding perform
run_calls [] a = a
run_calls ((now, c) ∷ cs) a = run_calls cs (perform now c a)
