-- ===== src/Activity/Unload.antt =====
-- What an unload leaves possible: `tryBeginUnload` of runtime-activity.ts and the calls after it.
use roj.Base.{
  sym, ℕ, ◌≤◌, ◌≡◌, refl, ◌∙◌, ◌⊎◌, inl, inr, String, Bool, true, false, ◌&&◌, ◌||◌, none, List, [],
  ◌∷◌, if◌then◌else◌, ◌==◌, arith, Bool-cases, and_true, ==_iff, dec_lt,
}
use roj.Activity.{
  RuntimeState, ready, parking, unloading, Lease, Activity, take_lease, next_number, try_acquire,
  try_operation, try_acquire_in, try_operation_in, begin_teardown, teardown_in, revoke,
  try_begin_unload, taken, is_ready, is_parking, allowed,
}
use roj.Activity.Leases.{Inv, open_leases}
use roj.Activity.Calls.{
  Call, acquire, operate, acquire_in, operate_in, free, park, teardown, legacy_teardown, revoke_all,
  unload, force_unload, dispose, after_taking, perform, run_calls,
}
use roj.Activity.Lifecycle.{rank, rank-run_calls, rank-perform}
use roj.Activity.Scopes.{
  none_open_dead, Dead, Dead-release, leases-parked, leases-unload, leases-forced, leases-disposed,
  Past-run_calls,
}

-- A runtime that unloads or has gone further, with no scope of an operation alive.
record Silent (a : Activity) : Type 0 where
  gone : 2 ≤ rank a.state
  over : (scope : ℕ) → Dead scope a.leases

not_ready : (s : RuntimeState) → 2 ≤ rank s → is_ready s ≡ false
not_ready ready h = absurd (omega (arith, h))
not_ready _ h = refl

not_parking : (s : RuntimeState) → 2 ≤ rank s → is_parking s ≡ false
not_parking parking h = absurd (omega (arith, h))
not_parking _ h = refl

not_allowed : (scope : ℕ) (a : Activity) → Dead scope a.leases → allowed scope a ≡ false
unfolding allowed
not_allowed scope a h = rw h refl

leases-refused :
    (b scoped : Bool) (now : ℕ) (reason : String) (a : Activity)
    → b ≡ false
    → (if b then taken (take_lease now scoped reason a) else (none, a)).1.leases ≡ a.leases
leases-refused b scoped now reason a e = rw e refl

leases-torn :
    (b : Bool) (now : ℕ) (a : Activity)
    → b ≡ false
    → (after_taking a (teardown_in b now a)).leases ≡ a.leases
leases-torn b now a e = rw e refl

-- The program's own teardown of a runtime that unloads.
abbrev pub is_teardown : Call → Bool
is_teardown legacy_teardown = true
is_teardown _ = false

over-same :
    (a : Activity) {ls : List Lease} → ls ≡ a.leases → Silent a → (scope : ℕ) → Dead scope ls
over-same a e h scope = rw e (h.over scope)

over-perform :
    (now : ℕ) (c : Call) (a : Activity)
    → is_teardown c ≡ false
    → Silent a
    → (scope : ℕ) → Dead scope (perform now c a).leases
unfolding perform try_acquire try_operation try_acquire_in try_operation_in begin_teardown revoke
over-perform now (acquire reason) a q h =
    over-same a (leases-refused (is_ready a.state) false now reason a (not_ready a.state h.gone)) h
over-perform now (operate reason) a q h =
    over-same a (leases-refused (is_ready a.state) true now reason a (not_ready a.state h.gone)) h
over-perform now (acquire_in scope reason) a q h =
    let no = not_allowed scope a (h.over scope) in
    over-same a (leases-refused (allowed scope a) false now reason a no) h
over-perform now (operate_in scope reason) a q h =
    let no = not_allowed scope a (h.over scope) in
    over-same a (leases-refused (allowed scope a) true now reason a no) h
over-perform now (free lease) a q h = λ scope. Dead-release scope now lease a (h.over scope)
over-perform now park a q h = over-same a (leases-parked a) h
over-perform now teardown a q h =
    over-same a (leases-torn (is_parking a.state) now a (not_parking a.state h.gone)) h
over-perform now legacy_teardown a q h = absurd (ground (arith, q))
over-perform now revoke_all a q h = h.over
over-perform now unload a q h = over-same a (leases-unload a) h
over-perform now force_unload a q h = over-same a (leases-forced a) h
over-perform now dispose a q h = over-same a (leases-disposed a) h

abbrev pub has_teardown : List (ℕ × Call) → Bool
has_teardown [] = false
has_teardown ((now, c) ∷ cs) = is_teardown c || has_teardown cs

Silent-run_calls :
    (calls : List (ℕ × Call)) (a : Activity)
    → has_teardown calls ≡ false
    → Silent a
    → Silent (run_calls calls a)
unfolding run_calls
Silent-run_calls [] a q h = h
Silent-run_calls ((now, c) ∷ cs) a q h =
    let first : is_teardown c ≡ false = ground (arith, q) in
    let more : has_teardown cs ≡ false = ground (arith, q) in
    let further = rank-perform now c a in
    let before = h.gone in
    Silent-run_calls cs (perform now c a) more
      (record { gone = omega (arith, further, before); over = over-perform now c a first h })

abbrev pub AtRoot : Activity → Type 0
AtRoot a =
    (now : ℕ) (reason : String)
    → (try_acquire now reason a ≡ (none, a)) × (try_operation now reason a ≡ (none, a))

abbrev pub InScope : ℕ → Activity → Type 0
InScope scope a =
    (now : ℕ) (reason : String)
    → (try_acquire_in scope now reason a ≡ (none, a))
      × (try_operation_in scope now reason a ≡ (none, a))

refused-AtRoot : (a : Activity) → 2 ≤ rank a.state → AtRoot a
unfolding try_acquire try_operation
refused-AtRoot a h now reason = let no = not_ready a.state h in rw no (refl, refl)

refused-InScope : (scope : ℕ) (a : Activity) → Dead scope a.leases → InScope scope a
unfolding try_acquire_in try_operation_in
refused-InScope scope a h now reason = let no = not_allowed scope a h in rw no (refl, refl)

unloading_gone : 2 ≤ rank unloading
unloading_gone = omega arith

record Begun (a : Activity) : Type 0 where
  empty : open_leases a.leases ≡ 0
  silent : Silent (try_begin_unload a).1

try_begin_unload-Begun : (a : Activity) → Inv a → (try_begin_unload a).0 ≡ true → Begun a
unfolding try_begin_unload
try_begin_unload-Begun a h e = elim (Bool-cases (is_ready a.state && a.active_count == 0)) [
  | inl c ↦
      let empty : open_leases a.leases ≡ 0 =
        sym h.counted ∙ (==_iff a.active_count 0).0 (and_true _ _ c).1 in
      record {
        empty = empty;
        silent =
            rw (try_begin_unload, c)
              (record {
                gone = unloading_gone;
                over = λ scope. none_open_dead scope a.leases empty h.live_open;
              });
      }
  | inr c ↦ absurd (let f = rw (try_begin_unload, c) at e in ground (arith, f))
]

-- An unload that is not forced begins only when no lease is open. After any further calls at any
-- times neither `tryAcquire` nor `tryOperation` of the controller gives out a lease. Nor does the
-- scope of an operation, unless it was opened after the unload began and a
-- `beginLegacyTeardown` is among the calls: in the state `unloading` that takes the lease of the
-- program's own teardown, whose scope admits work.
pub try_begin_unload-idle :
    (a : Activity) (calls : List (ℕ × Call)) (scope : ℕ)
    → Inv a
    → (try_begin_unload a).0 ≡ true
    → let later = run_calls calls (try_begin_unload a).1 in
      (open_leases a.leases ≡ 0)
      × AtRoot later
      × (InScope scope later ⊎ ((next_number a.leases ≤ scope) × (has_teardown calls ≡ true)))
try_begin_unload-idle a calls scope h e =
    let begun = try_begin_unload-Begun a h e in
    let after = (try_begin_unload a).1 in
    let start = begun.silent.gone in
    let further = rank-run_calls calls after in
    (
      begun.empty,
      refused-AtRoot (run_calls calls after) (omega (arith, start, further)),
      elim (dec_lt scope (next_number a.leases)) [
        | yes old ↦
            let past =
              Past-run_calls scope calls after
                (record { earlier = rw (leases-unload a) old; dead = begun.silent.over scope }) in
            inl (refused-InScope scope (run_calls calls after) past.dead)
        | no new ↦ elim (Bool-cases (has_teardown calls)) [
          | inl t ↦ inr (omega (arith, new), t)
          | inr t ↦
              let still = Silent-run_calls calls after t begun.silent in
              inl (refused-InScope scope (run_calls calls after) (still.over scope))
        ]
      ],
    )
