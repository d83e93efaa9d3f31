-- ===== src/Agent/Schedule/Checks.antt =====
-- The debounce checks and the stops keep what holds of an agent's scheduling.
use roj.Base.{ℕ, ◌≡◌, sym, subst, Bool, true, false, not, ◌||◌, Option, none, some, arith, if_both}
use roj.WakeKey.{retry}
use roj.Activity.{find_lease, Activity, is_ready, take_lease, try_operation, next_number}
use roj.Activity.Owned.{Owned, is_other}
use roj.Activity.Owned.Calls.{take_other-Owned, take_foreign-Owned, release_foreign-Owned}
use roj.Agent.Schedule.{
  cancel_wake, unscheduled, clear_check, Scheduling, Moment, ScheduleConfig, scheduled_reason,
  check_reason, drop_scheduled_lease, begin_continue, begin_check, check_in, Verdict, process_now,
  wait, failed, after_callback, end_check, shutdown, stop_local_scheduling, revoke_agent,
  cancel_schedule,
}
use roj.Agent.Schedule.Leased.{
  IsLeased, release_held-Owned, cancel_frame, cancelled, cancelled-IsLeased,
  cancel_schedule-IsLeased, enqueue-IsLeased, schedule_check-IsLeased,
}
use roj.Agent.Schedule.Kept.{check_apart, avoided, begin_continue-IsLeased, dropped-IsLeased}

module _ (c : ScheduleConfig) (m : Moment) where
  -- A lease that is not the held one is released.
  pub leave-IsLeased :
      (k : ℕ) (s : Scheduling)
      → is_other (scheduled_reason c) (find_lease k s.activity.leases) ≡ true
      → IsLeased c s
      → IsLeased c (end_check m k s)
  unfolding end_check
  leave-IsLeased k s o h = record {
    owned =
        release_foreign-Owned (scheduled_reason c) s.step_operation s.scheduled_lease m.now k
          s.activity o h.owned;
    leased = h.leased;
    idle = h.idle;
  }

  -- A check that drops the schedule on its way out.
  leave_cancelled-IsLeased :
      (k : ℕ) (s : Scheduling)
      → Owned (scheduled_reason c) s.scheduled_lease (some k) s.activity.leases
      → IsLeased c s
      → IsLeased c (end_check m k (cancel_schedule m s))
  leave_cancelled-IsLeased k s o h =
      let r = scheduled_reason c in
      let (b, qs, f) = cancel_frame m s in
      let u = cancelled m b qs s in
      subst (λ v. IsLeased c (end_check m k v)) (sym f)
        (leave-IsLeased k u
          (avoided r none k u.activity.leases
            (release_held-Owned r s.scheduled_lease (some k) m.now s.activity o))
          (cancelled-IsLeased c m b qs s h.owned))

  pub begin_check-IsLeased :
      (has_input : Bool) (s : Scheduling)
      → IsLeased c s
      → IsLeased c (begin_check c m has_input s).1
  unfolding begin_check try_operation take_lease end_check
  begin_check-IsLeased has_input s h =
      let r = scheduled_reason c in
      let k = next_number s.activity.leases in
      let a = (take_lease m.now true (check_reason c) s.activity).1 in
      let held = record s { activity = a } in
      let apart = check_apart c in
      let still : IsLeased c held = record {
        owned =
            take_foreign-Owned r s.step_operation s.scheduled_lease m.now true (check_reason c)
              s.activity apart h.owned;
        leased = h.leased;
        idle = h.idle;
      } in
      let mine =
        take_other-Owned r s.step_operation s.scheduled_lease m.now true (check_reason c) s.activity
          apart h.owned in
      let P = λ (x : Option ℕ × Scheduling). IsLeased c x.1 in
      if_both (λ (o : Option ℕ × Activity). IsLeased c (check_in m has_input s o).1)
        (is_ready s.activity.state) _ _
        (λ e.
          if_both P (not m.has_state) _ _ (λ d. leave_cancelled-IsLeased k held mine still)
            (λ d.
              if_both P (not s.scheduled) _ _
                (λ q. leave-IsLeased k held (avoided r s.scheduled_lease k a.leases mine) still)
                (λ q.
                  if_both P (not has_input) _ _ (λ p. leave_cancelled-IsLeased k held mine still)
                    (λ p. still))))
        (λ e. h)

  process_now-IsLeased :
      (s : Scheduling) → IsLeased c s → IsLeased c (begin_continue m (cancel_schedule m s)).1
  process_now-IsLeased s h =
      let free = cancel_schedule-IsLeased c m s h.owned in
      begin_continue-IsLeased c m (cancel_schedule m s) free.owned free.idle

  pub after_callback-IsLeased :
      (v : Verdict) (s : Scheduling) → IsLeased c s → IsLeased c (after_callback c m v s)
  unfolding after_callback
  after_callback-IsLeased failed s h = cancel_schedule-IsLeased c m s h.owned
  after_callback-IsLeased process_now s h =
      if_both (IsLeased c) s.scheduled _ _ (λ e. process_now-IsLeased s h) (λ e. h)
  after_callback-IsLeased wait s h =
      if_both (IsLeased c) s.scheduled _ _ (λ e. schedule_check-IsLeased c m s h) (λ e. h)

  pub shutdown-IsLeased :
      (given : Bool) (s : Scheduling) → IsLeased c s → IsLeased c (shutdown m given s)
  unfolding shutdown
  shutdown-IsLeased given s h =
      let ending = record s { has_scheduler = given || s.has_scheduler; aborted = true } in
      let ended = cancel_schedule m ending in
      let k = cancel_schedule-IsLeased c m ending h.owned in
      enqueue-IsLeased c m (cancel_wake retry) (record ended { error_retry_armed = false })
        (record { owned = k.owned; leased = k.leased; idle = k.idle })

  pub stop-IsLeased : (s : Scheduling) → IsLeased c s → IsLeased c (stop_local_scheduling m s)
  unfolding stop_local_scheduling
  stop-IsLeased s h =
      dropped-IsLeased c m (unscheduled (clear_check (record s { locally_stopped = true }))) h.owned
        (λ e. absurd (ground (arith, e)))

  pub revoke-IsLeased : (s : Scheduling) → IsLeased c s → IsLeased c (revoke_agent m s)
  unfolding revoke_agent stop_local_scheduling drop_scheduled_lease
  revoke-IsLeased s h =
      let k = stop-IsLeased s h in
      record { owned = k.owned; leased = k.leased; idle = λ e. absurd (ground (arith, e)) }
