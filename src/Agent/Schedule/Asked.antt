-- ===== src/Agent/Schedule/Asked.antt =====
-- A run that is asked for in the middle of a turn follows that turn.
use roj.Base.{
  ℕ, ◌≡◌, refl, sym, subst, ap, ◌∙◌, Bool, true, false, not, ◌||◌, Option, none, some, if_both,
  get_or, if◌then◌else◌, arith,
}
use roj.Activity.{Activity, is_ready, try_acquire, take_lease, taken}
use roj.Activity.Lifecycle.{state-release}
use roj.WakeKey.{debounce}
use roj.Agent.Schedule.{
  arm_wake, Scheduling, Moment, ScheduleConfig, scheduled_reason, release_held, with_lease,
  start_delay, cancel_schedule, schedule_processing, end_continue,
}
use roj.Agent.Schedule.Leased.{enqueue_frame, cancel_frame, cancelled}
use roj.Agent.Schedule.Wanted.{During, Open, Wanted, asked-Wanted, during-Wanted}

state-release_held :
    (now : ℕ) (held : Option ℕ) (a : Activity) → (release_held now held a).state ≡ a.state
state-release_held now none a = refl
state-release_held now (some k) a = state-release now k a

module _ (c : ScheduleConfig) (m : Moment) where
  IsOn : Scheduling → Type 0
  IsOn s = s.scheduled ≡ true

  delay-IsOn : (s : Scheduling) → m.has_state ≡ true → s.scheduled ≡ true → IsOn (start_delay c m s)
  unfolding start_delay IsOn
  delay-IsOn s there on =
      let (b, qs, f) = enqueue_frame m (arm_wake debounce (get_or c.debounce_ms 500)) s in
      if_both IsOn (not m.has_state) _ _ (λ e. absurd (ground (arith, e, there)))
        (λ e. if_both IsOn c.debounce_callback _ _ (λ d. on) (λ d. subst IsOn (sym f) on))

  lease-IsOn :
      (b : Bool) (s : Scheduling)
      → b ≡ true
      → m.has_state ≡ true
      → IsOn (
          with_lease c m s (
            if b
            then taken (take_lease m.now false (scheduled_reason c) s.activity)
            else (none, s.activity)))
  unfolding take_lease
  lease-IsOn false s e there = absurd (ground (arith, e))
  lease-IsOn true s e there = delay-IsOn _ there refl

  taken-IsOn :
      (s : Scheduling)
      → Open m s
      → IsOn (
          with_lease c m
            (cancel_schedule m s)
            (try_acquire m.now (scheduled_reason c) (cancel_schedule m s).activity))
  unfolding try_acquire
  taken-IsOn s o =
      let (b, qs, f) = cancel_frame m s in
      let u = cancelled m b qs s in
      subst (λ v. IsOn (with_lease c m v (try_acquire m.now (scheduled_reason c) v.activity)))
        (sym f)
        (lease-IsOn (is_ready u.activity.state) u
          (ap is_ready (state-release_held m.now s.scheduled_lease s.activity) ∙ o.ready) o.there)

  accepted-IsOn :
      (s : Scheduling)
      → Open m s
      → s.processing ≡ false
      → s.scheduled ≡ false
      → IsOn (schedule_processing c m s)
  unfolding schedule_processing
  accepted-IsOn s o p u =
      let stopped = o.running in
      let ready = o.ready in
      let aborted = o.not_aborted in
      let closed = o.open_store in
      if_both IsOn (s.locally_stopped || not (is_ready s.activity.state)) _ _
        (λ e. absurd (ground (arith, e, stopped, ready)))
        (λ e.
          if_both IsOn s.scheduled _ _ (λ d. absurd (ground (arith, d, u)))
            (λ d.
              if_both IsOn m.closed _ _ (λ k. absurd (ground (arith, k, closed)))
                (λ k.
                  if_both IsOn s.aborted _ _ (λ a. absurd (ground (arith, a, aborted)))
                    (λ a.
                      if_both IsOn s.processing _ _ (λ q. absurd (ground (arith, q, p)))
                        (λ q. taken-IsOn s o)))))

  ended-IsOn : (s : Scheduling) → Open m s → Wanted s → IsOn (end_continue c m s)
  unfolding end_continue
  ended-IsOn s o w =
      let wanted = w.wanted in
      if_both IsOn s.pending_reschedule _ _
        (λ e.
          accepted-IsOn (record s { processing = false; pending_reschedule = false })
            (record {
              open_store = o.open_store;
              there = o.there;
              running = o.running;
              not_aborted = o.not_aborted;
              ready = o.ready;
            })
            refl w.unscheduled)
        (λ e. absurd (ground (arith, e, wanted)))

-- When a run is asked for while a turn runs, and the turn is not stopped or cancelled, then the end
-- of the turn schedules the run, whatever rounds, further requests and calls of others on the
-- runtime came between: the request is not lost. The agent has to be there, its store open and its
-- runtime ready at both moments.
pub end_continue-asked :
    (c : ScheduleConfig) (m now : Moment) (s t : Scheduling)
    → s.processing ≡ true
    → s.scheduled ≡ false
    → Open m s
    → During c (schedule_processing c m s) t
    → Open now t
    → (end_continue c now t).scheduled ≡ true
unfolding IsOn
end_continue-asked c m now s t p u o d n =
    ended-IsOn c now t n (during-Wanted d (asked-Wanted c m s o p u))
