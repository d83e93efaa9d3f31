-- ===== src/Agent/Schedule/Leased.antt =====
-- What holds of an agent's scheduling, and that the pieces of its calls keep it.
use roj.Base.{
  ℕ, ◌≡◌, refl, sym, subst, ap, String, Bool, true, false, not, ◌||◌, Option, none, some, List, ◌∷◌,
  if◌then◌else◌, is_some, eq_refl, arith, Bool-cases, if_both, inl, inr,
}
use roj.WakeKey.{debounce}
use roj.Activity.{try_acquire, Lease, Activity, take_lease, release, is_ready, taken}
use roj.Activity.Owned.{Owned}
use roj.Activity.Owned.Calls.{take_own-Owned, release_foreign-Owned, release_own-Owned}
use roj.Agent.Schedule.{
  HostRequest, cancel_wake, Scheduling, Moment, ScheduleConfig, scheduled_reason, release_held,
  drop_scheduled_lease, enqueue_scheduler, clear_check, unscheduled, cancel_schedule,
  schedule_check, start_delay, with_lease, schedule_processing,
}

-- A turn runs, or the agent was shut down or stopped.
abbrev pub is_halted : Scheduling → Bool
is_halted s = s.processing || s.aborted || s.locally_stopped

abbrev pub OwnedIn : ScheduleConfig → Scheduling → Type 0
OwnedIn c s = Owned (scheduled_reason c) s.scheduled_lease s.step_operation s.activity.leases

-- The agent's scheduled lease is the only open one of its reason, it is held only while a run is
-- scheduled, and no run is scheduled in a turn or after a stop.
pub record IsLeased (c : ScheduleConfig) (s : Scheduling) : Type 0 where
  pub owned : OwnedIn c s
  pub leased : is_some s.scheduled_lease ≡ true → s.scheduled ≡ true
  pub idle : s.scheduled ≡ true → is_halted s ≡ false

pub release_held-Owned :
    (r : String) (held other : Option ℕ) (now : ℕ) (a : Activity)
    → Owned r held other a.leases
    → Owned r none other (release_held now held a).leases
release_held-Owned r none other now a h = h
release_held-Owned r (some k) other now a h = release_own-Owned r other now k a h

forget_other :
    (r : String) (held other : Option ℕ) (ls : List Lease)
    → Owned r held other ls
    → Owned r held none ls
forget_other r held other ls h = record {
  numbered = h.numbered;
  counted = h.counted;
  holds = h.holds;
  avoids = tt;
}

-- The operation of a round is over.
pub release_other-Owned :
    (r : String) (held other : Option ℕ) (now : ℕ) (a : Activity)
    → Owned r held other a.leases
    → Owned r held none (release_held now other a).leases
release_other-Owned r held none now a h = h
release_other-Owned r held (some k) now a h =
    let (l, f, e) = h.avoids in
    forget_other r held (some k) (release now k a).leases
      (release_foreign-Owned r (some k) held now k a (rw (f, e) refl) h)

-- What the host is asked changes nothing else.
pub enqueue_frame :
    (m : Moment) (q : HostRequest) (s : Scheduling)
    → (b : Bool) × (qs : List HostRequest) × (enqueue_scheduler m q s
        ≡ record s { has_scheduler = b; requests = qs })
unfolding enqueue_scheduler
enqueue_frame m q s = elim (Bool-cases s.locally_stopped) [
  | inl e ↦ (s.has_scheduler, s.requests, rw (enqueue_scheduler, e) refl)
  | inr e ↦ elim (Bool-cases (s.has_scheduler || m.reachable)) [
    | inl d ↦ (true, q ∷ s.requests, rw (enqueue_scheduler, e, d) refl)
    | inr d ↦ (s.has_scheduler, s.requests, rw (enqueue_scheduler, e, d) refl)
  ]
]

abbrev pub cancelled : Moment → Bool → List HostRequest → Scheduling → Scheduling
cancelled m b qs s = record s {
  scheduled = false;
  pending_reschedule = false;
  has_scheduler = b;
  debounce_check_timer = none;
  scheduled_lease = none;
  activity = release_held m.now s.scheduled_lease s.activity;
  requests = qs;
}

pub cancel_frame :
    (m : Moment) (s : Scheduling)
    → (b : Bool) × (qs : List HostRequest) × (cancel_schedule m s ≡ cancelled m b qs s)
unfolding cancel_schedule drop_scheduled_lease
cancel_frame m s =
    let (b, qs, e) = enqueue_frame m (cancel_wake debounce) (clear_check s) in
    (b, qs, ap (λ u. drop_scheduled_lease m (unscheduled u)) e)

module _ (c : ScheduleConfig) (m : Moment) where
  pub cancelled-IsLeased :
      (b : Bool) (qs : List HostRequest) (s : Scheduling)
      → OwnedIn c s
      → IsLeased c (cancelled m b qs s)
  cancelled-IsLeased b qs s h = record {
    owned =
        release_held-Owned (scheduled_reason c) s.scheduled_lease s.step_operation m.now s.activity
          h;
    leased = λ e. e;
    idle = λ e. absurd (ground (arith, e));
  }

  pub cancel_schedule-IsLeased : (s : Scheduling) → OwnedIn c s → IsLeased c (cancel_schedule m s)
  cancel_schedule-IsLeased s h =
      let (b, qs, e) = cancel_frame m s in subst (IsLeased c) (sym e) (cancelled-IsLeased b qs s h)

  pub enqueue-IsLeased :
      (q : HostRequest) (s : Scheduling) → IsLeased c s → IsLeased c (enqueue_scheduler m q s)
  enqueue-IsLeased q s h =
      let (b, qs, e) = enqueue_frame m q s in
      subst (IsLeased c) (sym e) (record { owned = h.owned; leased = h.leased; idle = h.idle })

  pub schedule_check-IsLeased : (s : Scheduling) → IsLeased c s → IsLeased c (schedule_check c s)
  schedule_check-IsLeased s h = record { owned = h.owned; leased = h.leased; idle = h.idle }

  start_delay-IsLeased : (s : Scheduling) → IsLeased c s → IsLeased c (start_delay c m s)
  unfolding start_delay
  start_delay-IsLeased s h =
      if_both (IsLeased c) (not m.has_state) _ _ (λ e. cancel_schedule-IsLeased s h.owned)
        (λ e.
          if_both (IsLeased c) c.debounce_callback _ _ (λ d. schedule_check-IsLeased s h)
            (λ d. enqueue-IsLeased _ s h))

  with_lease-IsLeased :
      (b : Bool) (s : Scheduling)
      → s.scheduled_lease ≡ none
      → is_halted s ≡ false
      → IsLeased c s
      → IsLeased c (
          with_lease c m s (
            if b
            then taken (take_lease m.now false (scheduled_reason c) s.activity)
            else (none, s.activity)))
  unfolding take_lease
  with_lease-IsLeased false s n i h = h
  with_lease-IsLeased true s n i h =
      let free =
        subst (λ o. Owned (scheduled_reason c) o s.step_operation s.activity.leases) n h.owned in
      start_delay-IsLeased _ (record {
        owned =
            take_own-Owned (scheduled_reason c) s.step_operation m.now false (scheduled_reason c)
              s.activity (eq_refl (scheduled_reason c)) free;
        leased = λ e. refl;
        idle = λ e. i;
      })

  -- The branch that takes the lease.
  take-IsLeased :
      (s : Scheduling)
      → OwnedIn c s
      → is_halted s ≡ false
      → IsLeased c (
          with_lease c m
            (cancel_schedule m s)
            (try_acquire m.now (scheduled_reason c) (cancel_schedule m s).activity))
  unfolding try_acquire
  take-IsLeased s h i =
      let (b, qs, f) = cancel_frame m s in
      let u = cancelled m b qs s in
      subst (λ v. IsLeased c (with_lease c m v (try_acquire m.now (scheduled_reason c) v.activity)))
        (sym f)
        (with_lease-IsLeased (is_ready u.activity.state) u refl i (cancelled-IsLeased b qs s h))

  pub schedule_processing-IsLeased :
      (s : Scheduling) → IsLeased c s → IsLeased c (schedule_processing c m s)
  unfolding schedule_processing
  schedule_processing-IsLeased s h =
      if_both (IsLeased c) (s.locally_stopped || not (is_ready s.activity.state)) _ _ (λ e. h)
        (λ e.
          if_both (IsLeased c) s.scheduled _ _ (λ d. h)
            (λ d.
              if_both (IsLeased c) m.closed _ _ (λ k. h)
                (λ k.
                  if_both (IsLeased c) s.aborted _ _ (λ a. h)
                    (λ a.
                      if_both (IsLeased c) s.processing _ _
                        (λ p. record { owned = h.owned; leased = h.leased; idle = h.idle })
                        (λ p. take-IsLeased s h.owned (ground (arith, e, a, p)))))))
