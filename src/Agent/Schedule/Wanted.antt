-- ===== src/Agent/Schedule/Wanted.antt =====
-- What happens in a turn keeps a request for another run.
use roj.Base.{ℕ, ◌≡◌, refl, sym, subst, Bool, true, false, not, ◌||◌, Option, if_both, arith}
use roj.Activity.{Activity, is_ready, try_operation, take_lease}
use roj.Activity.Calls.{Call, perform}
use roj.WakeKey.{retry}
use roj.Agent.Schedule.{
  arm_wake, Scheduling, Moment, ScheduleConfig, schedule_processing, drop_scheduled_lease,
  begin_continue, begin_step, in_step, end_step, schedule_error_retry,
}
use roj.Agent.Schedule.Leased.{enqueue_frame}

-- What happens to an agent in a turn that is not stopped: its own rounds, calls that ask for a run
-- or try to start one, and whatever others do with the runtime.
pub data During (c : ScheduleConfig) (s : Scheduling) : Scheduling → Type 0 where
  at_first : During c s s
  asked : {t : Scheduling} (m : Moment) → During c s t → During c s (schedule_processing c m t)
  continued : {t : Scheduling} (m : Moment) → During c s t → During c s (begin_continue m t).1
  round_begins : {t : Scheduling} (m : Moment) → During c s t → During c s (begin_step c m t).1
  round_ends : {t : Scheduling} (m : Moment) → During c s t → During c s (end_step m t)
  backed_off :
      {t : Scheduling} (m : Moment) (delay_ms : ℕ)
      → During c s t
      → During c s (schedule_error_retry m delay_ms t)
  others :
      {t : Scheduling} (now : ℕ) (call : Call)
      → During c s t
      → During c s (record t { activity = perform now call t.activity })

-- The store is open, the agent is there and not stopped, and its runtime is ready.
pub record Open (m : Moment) (s : Scheduling) : Type 0 where
  pub open_store : m.closed ≡ false
  pub there : m.has_state ≡ true
  pub running : s.locally_stopped ≡ false
  pub not_aborted : s.aborted ≡ false
  pub ready : is_ready s.activity.state ≡ true

-- A turn runs, and another run is asked for.
pub record Wanted (s : Scheduling) : Type 0 where
  pub processing : s.processing ≡ true
  pub wanted : s.pending_reschedule ≡ true
  pub unscheduled : s.scheduled ≡ false

module _ (c : ScheduleConfig) (m : Moment) where
  pub asked-Wanted :
      (s : Scheduling)
      → Open m s
      → s.processing ≡ true
      → s.scheduled ≡ false
      → Wanted (schedule_processing c m s)
  unfolding schedule_processing
  asked-Wanted s o p u =
      let stopped = o.running in
      let ready = o.ready in
      let aborted = o.not_aborted in
      let closed = o.open_store in
      if_both Wanted (s.locally_stopped || not (is_ready s.activity.state)) _ _
        (λ e. absurd (ground (arith, e, stopped, ready)))
        (λ e.
          if_both Wanted s.scheduled _ _ (λ d. absurd (ground (arith, d, u)))
            (λ d.
              if_both Wanted m.closed _ _ (λ k. absurd (ground (arith, k, closed)))
                (λ k.
                  if_both Wanted s.aborted _ _ (λ a. absurd (ground (arith, a, aborted)))
                    (λ a.
                      if_both Wanted s.processing _ _
                        (λ q. record { processing = p; wanted = refl; unscheduled = u })
                        (λ q. absurd (ground (arith, q, p)))))))

  again-Wanted : (s : Scheduling) → Wanted s → Wanted (schedule_processing c m s)
  unfolding schedule_processing
  again-Wanted s w =
      let p = w.processing in
      if_both Wanted (s.locally_stopped || not (is_ready s.activity.state)) _ _ (λ e. w)
        (λ e.
          if_both Wanted s.scheduled _ _ (λ d. w)
            (λ d.
              if_both Wanted m.closed _ _ (λ k. w)
                (λ k.
                  if_both Wanted s.aborted _ _ (λ a. w)
                    (λ a.
                      if_both Wanted s.processing _ _
                        (λ q. record { processing = p; wanted = refl; unscheduled = w.unscheduled })
                        (λ q. absurd (ground (arith, q, p)))))))

  continued-Wanted : (s : Scheduling) → Wanted s → Wanted (begin_continue m s).1
  unfolding begin_continue drop_scheduled_lease
  continued-Wanted s w =
      let p = w.processing in
      if_both (λ (x : Bool × Scheduling). Wanted x.1)
        (s.processing || m.closed || s.locally_stopped) _ _
        (λ e. record { processing = p; wanted = w.wanted; unscheduled = w.unscheduled })
        (λ e. absurd (ground (arith, e, p)))

  round-Wanted : (s : Scheduling) → Wanted s → Wanted (begin_step c m s).1
  unfolding begin_step try_operation take_lease
  round-Wanted s w =
      if_both (λ (o : Option ℕ × Activity). Wanted (in_step s o).1) (is_ready s.activity.state) _ _
        (λ e. record { processing = w.processing; wanted = w.wanted; unscheduled = w.unscheduled })
        (λ e. w)

  backed_off-Wanted :
      (delay_ms : ℕ) (s : Scheduling) → Wanted s → Wanted (schedule_error_retry m delay_ms s)
  unfolding schedule_error_retry
  backed_off-Wanted delay_ms s w =
      let (b, qs, f) =
        enqueue_frame m (arm_wake retry delay_ms) (record s { error_retry_armed = true }) in
      if_both Wanted s.error_retry_armed _ _ (λ e. w)
        (λ e.
          if_both Wanted m.closed _ _ (λ d. w)
            (λ d.
              if_both Wanted s.aborted _ _ (λ a. w)
                (λ a. subst Wanted (sym f) (record {
                  processing = w.processing;
                  wanted = w.wanted;
                  unscheduled = w.unscheduled;
                }))))

pub during-Wanted : {c : ScheduleConfig} {s t : Scheduling} → During c s t → Wanted s → Wanted t
unfolding end_step
during-Wanted at_first w = w
during-Wanted {c} (asked {t} m d) w = again-Wanted c m t (during-Wanted d w)
during-Wanted {c} (continued {t} m d) w = continued-Wanted c m t (during-Wanted d w)
during-Wanted {c} (round_begins {t} m d) w = round-Wanted c m t (during-Wanted d w)
during-Wanted (round_ends m d) w =
    let v = during-Wanted d w in
    record { processing = v.processing; wanted = v.wanted; unscheduled = v.unscheduled }
during-Wanted {c} (backed_off {t} m delay_ms d) w =
    backed_off-Wanted c m delay_ms t (during-Wanted d w)
during-Wanted (others now call d) w =
    let v = during-Wanted d w in
    record { processing = v.processing; wanted = v.wanted; unscheduled = v.unscheduled }
