-- ===== src/Activity/Lifecycle.antt =====
-- The states of a runtime only go forward.
use roj.Base.{
  ℕ, ◌≤◌, ◌≡◌, refl, ap, String, Bool, true, false, none, List, [], ◌∷◌, if◌then◌else◌, ◌==◌, arith,
  Option-cases, Bool-cases, inl, inr,
}
use roj.Activity.{
  RuntimeState, ready, parking, unloading, revoked, disposed, Activity, take_lease, find_lease,
  release, try_acquire, try_operation, try_acquire_in, try_operation_in, begin_parking,
  begin_teardown, begin_legacy_teardown, teardown_in, revoke, try_begin_unload, begin_forced_unload,
  mark_disposed, taken, is_ready, is_parking, is_unloading, allowed,
}
use roj.Activity.Calls.{
  Call, acquire, operate, acquire_in, operate_in, free, park, teardown, legacy_teardown, revoke_all,
  unload, force_unload, dispose, after_guard, after_taking, perform, run_calls,
}

-- How far the life of a runtime has gone.
abbrev pub rank : RuntimeState → ℕ
rank ready = 0
rank parking = 1
rank unloading = 2
rank disposed = 3
rank revoked = 4

state-taken_if :
    (b scoped : Bool) (now : ℕ) (reason : String) (a : Activity)
    → (if b then taken (take_lease now scoped reason a) else (none, a)).1.state ≡ a.state
unfolding take_lease
state-taken_if true scoped now reason a = refl
state-taken_if false scoped now reason a = refl

state-teardown_in :
    (b : Bool) (now : ℕ) (a : Activity) → (after_taking a (teardown_in b now a)).state ≡ a.state
unfolding take_lease
state-teardown_in true now a = refl
state-teardown_in false now a = refl

pub state-release : (now number : ℕ) (a : Activity) → (release now number a).state ≡ a.state
unfolding release
state-release now number a = elim (Option-cases (find_lease number a.leases)) [
  | inl n ↦ rw (release, n) refl
  | inr (l, n) ↦ elim (Bool-cases l.released) [
    | inl e ↦ rw (release, n, e) refl
    | inr e ↦ rw (release, n, e) refl
  ]
]

module _ (a : Activity) where
  parked_rank :
      (s : RuntimeState) → a.state ≡ s → rank a.state ≤ rank (after_guard a (begin_parking a)).state
  unfolding begin_parking
  parked_rank ready e = rw e (omega arith)
  parked_rank parking e = rw e (omega arith)
  parked_rank unloading e = rw e (omega arith)
  parked_rank disposed e = rw e (omega arith)
  parked_rank revoked e = rw e (omega arith)

  unloaded_rank :
      (s : RuntimeState) (idle : Bool)
      → a.state ≡ s
      → (a.active_count == 0) ≡ idle
      → rank a.state ≤ rank (try_begin_unload a).1.state
  unfolding try_begin_unload
  unloaded_rank ready true e h = rw (e, h) (omega arith)
  unloaded_rank ready false e h = rw (e, h) (omega arith)
  unloaded_rank parking idle e h = rw e (omega arith)
  unloaded_rank unloading idle e h = rw e (omega arith)
  unloaded_rank disposed idle e h = rw e (omega arith)
  unloaded_rank revoked idle e h = rw e (omega arith)

  forced_rank : (s : RuntimeState) → a.state ≡ s → rank a.state ≤ rank (begin_forced_unload a).state
  unfolding begin_forced_unload
  forced_rank ready e = rw e (omega arith)
  forced_rank parking e = rw e (omega arith)
  forced_rank unloading e = rw e (omega arith)
  forced_rank disposed e = rw e (omega arith)
  forced_rank revoked e = rw e (omega arith)

  disposed_rank : (s : RuntimeState) → a.state ≡ s → rank a.state ≤ rank (mark_disposed a).state
  unfolding mark_disposed
  disposed_rank ready e = rw e (omega arith)
  disposed_rank parking e = rw e (omega arith)
  disposed_rank unloading e = rw e (omega arith)
  disposed_rank disposed e = rw e (omega arith)
  disposed_rank revoked e = rw e (omega arith)

  revoked_rank : (s : RuntimeState) → rank s ≤ 4
  revoked_rank ready = omega arith
  revoked_rank parking = omega arith
  revoked_rank unloading = omega arith
  revoked_rank disposed = omega arith
  revoked_rank revoked = omega arith

same_rank : (s t : RuntimeState) → s ≡ t → rank t ≤ rank s
same_rank s t e = let q = ap rank e in omega (arith, q)

pub rank-perform : (now : ℕ) (c : Call) (a : Activity) → rank a.state ≤ rank (perform now c a).state
unfolding perform try_acquire try_operation try_acquire_in try_operation_in begin_teardown
    begin_legacy_teardown revoke
rank-perform now (acquire reason) a =
    same_rank _ a.state (state-taken_if (is_ready a.state) false now reason a)
rank-perform now (operate reason) a =
    same_rank _ a.state (state-taken_if (is_ready a.state) true now reason a)
rank-perform now (acquire_in scope reason) a =
    same_rank _ a.state (state-taken_if (allowed scope a) false now reason a)
rank-perform now (operate_in scope reason) a =
    same_rank _ a.state (state-taken_if (allowed scope a) true now reason a)
rank-perform now (free lease) a = same_rank _ a.state (state-release now lease a)
rank-perform now park a = parked_rank a a.state refl
rank-perform now teardown a = same_rank _ a.state (state-teardown_in (is_parking a.state) now a)
rank-perform now legacy_teardown a =
    same_rank _ a.state (state-teardown_in (is_unloading a.state) now a)
rank-perform now revoke_all a = revoked_rank a a.state
rank-perform now unload a = unloaded_rank a a.state (a.active_count == 0) refl refl
rank-perform now force_unload a = forced_rank a a.state refl
rank-perform now dispose a = disposed_rank a a.state refl

-- No call brings a runtime back: over any calls its state only goes forward, from ready over
-- parking, unloading and disposed to revoked. In particular a revoked runtime stays revoked, and
-- one that left the state ready never gives out a lease at its root again.
pub rank-run_calls :
    (calls : List (ℕ × Call)) (a : Activity) → rank a.state ≤ rank (run_calls calls a).state
unfolding run_calls
rank-run_calls [] a = omega arith
rank-run_calls ((now, c) ∷ cs) a =
    let first = rank-perform now c a in
    let rest = rank-run_calls cs (perform now c a) in omega arith
