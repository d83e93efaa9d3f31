-- ===== src/Activity/Scopes.antt =====
-- The scopes of a runtime's operations, over any calls: one that is over stays over.
use roj.Base.{
  ℕ, ◌<◌, ◌≡◌, refl, inl, inr, String, Bool, true, false, ◌&&◌, ◌||◌, none, List, [], ◌∷◌,
  if◌then◌else◌, ◌==◌, arith, Option-cases, Bool-cases, ==_iff, All,
}
use roj.Activity.{
  Lease, Activity, take_lease, find_lease, close_lease, next_number, release, try_acquire,
  try_operation, try_acquire_in, try_operation_in, begin_parking, begin_teardown,
  begin_legacy_teardown, teardown_in, revoke, try_begin_unload, begin_forced_unload, mark_disposed,
  taken, is_ready, is_parking, is_unloading, is_revoked, allowed, is_live,
}
use roj.Activity.Leases.{open_leases}
use roj.Activity.Calls.{
  Call, acquire, operate, acquire_in, operate_in, free, park, teardown, legacy_teardown, revoke_all,
  unload, force_unload, dispose, after_guard, after_taking, perform, run_calls,
}
use roj.Activity.Owned.{next_number-close}

pub none_open_dead :
    (scope : ℕ) (ls : List Lease)
    → open_leases ls ≡ 0
    → All (λ l. l.live && l.released ≡ false) ls
    → is_live (find_lease scope ls) ≡ false
unfolding find_lease
none_open_dead scope [] h q = refl
none_open_dead scope (l ∷ ls) h q = elim (Bool-cases l.released) [
  | inl e ↦
      let dead : l.live ≡ false = (let one = q.0 in ground (arith, one, e)) in
      let rest = none_open_dead scope ls (rw e at h) q.1 in ground (arith, dead, rest)
  | inr e ↦ absurd (let n = rw e at h in omega (arith, n))
]

-- The scope of an operation is over, or was never opened.
abbrev pub Dead : ℕ → List Lease → Type 0
Dead scope ls = is_live (find_lease scope ls) ≡ false

Dead-close :
    (scope number : ℕ) (ls : List Lease) → Dead scope ls → Dead scope (close_lease number ls)
unfolding find_lease close_lease
Dead-close scope number [] h = h
Dead-close scope number (l ∷ ls) h = elim (Bool-cases (l.number == number)) [
  | inl e ↦ rw (close_lease, e) (ground (arith, h))
  | inr e ↦ let ih = Dead-close scope number ls in rw (close_lease, e) (ground (arith, ih, h))
]

pub Dead-release :
    (scope now number : ℕ) (a : Activity)
    → Dead scope a.leases
    → Dead scope (release now number a).leases
unfolding release
Dead-release scope now number a h = elim (Option-cases (find_lease number a.leases)) [
  | inl n ↦ rw (release, n) h
  | inr (l, n) ↦ elim (Bool-cases l.released) [
    | inl e ↦ rw (release, n, e) h
    | inr e ↦ rw (release, n, e) (Dead-close scope number a.leases h)
  ]
]

-- A scope from before, which is over.
pub record Past (scope : ℕ) (a : Activity) : Type 0 where
  pub earlier : scope < next_number a.leases
  pub dead : Dead scope a.leases

next_number-release :
    (now number : ℕ) (a : Activity)
    → next_number (release now number a).leases ≡ next_number a.leases
unfolding release
next_number-release now number a = elim (Option-cases (find_lease number a.leases)) [
  | inl n ↦ rw (release, n) refl
  | inr (l, n) ↦ elim (Bool-cases l.released) [
    | inl e ↦ rw (release, n, e) refl
    | inr e ↦ rw (release, n, e) (next_number-close number a.leases)
  ]
]

Past-take :
    (scope now : ℕ) (scoped : Bool) (reason : String) (a : Activity)
    → Past scope a
    → Past scope (take_lease now scoped reason a).1
unfolding take_lease find_lease
Past-take scope now scoped reason a h =
    let e = h.earlier in
    record {
      earlier = omega (arith, e);
      dead = elim (Bool-cases (next_number a.leases == scope)) [
        | inl same ↦
            let q = (==_iff (next_number a.leases) scope).0 same in absurd (omega (arith, e, q))
        | inr other ↦ rw (find_lease, other) h.dead
      ];
    }

Past-taken_if :
    (scope : ℕ) (b scoped : Bool) (now : ℕ) (reason : String) (a : Activity)
    → Past scope a
    → Past scope (if b then taken (take_lease now scoped reason a) else (none, a)).1
unfolding take_lease
Past-taken_if scope true scoped now reason a h = Past-take scope now scoped reason a h
Past-taken_if scope false scoped now reason a h = h

Past-teardown_in :
    (scope : ℕ) (b : Bool) (now : ℕ) (a : Activity)
    → Past scope a
    → Past scope (after_taking a (teardown_in b now a))
unfolding take_lease
Past-teardown_in scope true now a h = Past-take scope now true "teardown" a h
Past-teardown_in scope false now a h = h

pub Past-leases : (scope : ℕ) (a b : Activity) → b.leases ≡ a.leases → Past scope a → Past scope b
Past-leases scope a b e h = record { earlier = rw e h.earlier; dead = rw e h.dead }

pub leases-parked : (a : Activity) → (after_guard a (begin_parking a)).leases ≡ a.leases
unfolding begin_parking
leases-parked a = elim (Bool-cases (is_ready a.state)) [ inl e ↦ rw e refl | inr e ↦ rw e refl ]

pub leases-unload : (a : Activity) → (try_begin_unload a).1.leases ≡ a.leases
unfolding try_begin_unload
leases-unload a = elim (Bool-cases (is_ready a.state && a.active_count == 0)) [
  | inl e ↦ rw (try_begin_unload, e) refl
  | inr e ↦ rw (try_begin_unload, e) refl
]

pub leases-forced : (a : Activity) → (begin_forced_unload a).leases ≡ a.leases
unfolding begin_forced_unload
leases-forced a = elim (Bool-cases (is_parking a.state || is_ready a.state)) [
  | inl e ↦ rw (begin_forced_unload, e) refl
  | inr e ↦ rw (begin_forced_unload, e) refl
]

pub leases-disposed : (a : Activity) → (mark_disposed a).leases ≡ a.leases
unfolding mark_disposed
leases-disposed a = elim (Bool-cases (is_revoked a.state)) [ inl e ↦ rw e refl | inr e ↦ rw e refl ]

Past-perform :
    (scope now : ℕ) (c : Call) (a : Activity) → Past scope a → Past scope (perform now c a)
unfolding perform try_acquire try_operation try_acquire_in try_operation_in begin_teardown
    begin_legacy_teardown revoke
Past-perform s now (acquire reason) a h = Past-taken_if s (is_ready a.state) false now reason a h
Past-perform s now (operate reason) a h = Past-taken_if s (is_ready a.state) true now reason a h
Past-perform s now (acquire_in scope reason) a h =
    Past-taken_if s (allowed scope a) false now reason a h
Past-perform s now (operate_in scope reason) a h =
    Past-taken_if s (allowed scope a) true now reason a h
Past-perform s now (free lease) a h =
    let q = next_number-release now lease a in
    record { earlier = rw q h.earlier; dead = Dead-release s now lease a h.dead }
Past-perform s now park a h = Past-leases s a _ (leases-parked a) h
Past-perform s now teardown a h = Past-teardown_in s (is_parking a.state) now a h
Past-perform s now legacy_teardown a h = Past-teardown_in s (is_unloading a.state) now a h
Past-perform s now revoke_all a h = Past-leases s a _ refl h
Past-perform s now unload a h = Past-leases s a _ (leases-unload a) h
Past-perform s now force_unload a h = Past-leases s a _ (leases-forced a) h
Past-perform s now dispose a h = Past-leases s a _ (leases-disposed a) h

pub Past-run_calls :
    (scope : ℕ) (calls : List (ℕ × Call)) (a : Activity)
    → Past scope a
    → Past scope (run_calls calls a)
unfolding run_calls
Past-run_calls scope [] a h = h
Past-run_calls scope ((now, c) ∷ cs) a h =
    Past-run_calls scope cs (perform now c a) (Past-perform scope now c a h)
