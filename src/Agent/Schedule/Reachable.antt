-- ===== src/Agent/Schedule/Reachable.antt =====
-- An agent never leaks its scheduled lease, and nothing is scheduled after a stop.
use roj.Base.{ℕ, ◌≡◌, refl, true, false, is_some, arith}
use roj.Activity.{fresh_activity}
use roj.Activity.Leases.{open_for}
use roj.Activity.Owned.{held_count}
use roj.Activity.Owned.Calls.{perform-Owned}
use roj.Agent.Schedule.{Scheduling, ScheduleConfig, scheduled_reason, new_scheduling}
use roj.Agent.Schedule.Steps.{
  Step, asks, continues, step_begins, step_ends, run_ends, backs_off, wakes, checks, answers,
  check_ends, shuts_down, stops, is_revoked, outside, Reaches, start, then_step,
}
use roj.Agent.Schedule.Leased.{is_halted, IsLeased, schedule_processing-IsLeased}
use roj.Agent.Schedule.Kept.{
  begin_continue-IsLeased, in_step-IsLeased, end_step-IsLeased, end_continue-IsLeased,
  error_retry-IsLeased, deliver_wake-IsLeased,
}
use roj.Agent.Schedule.Checks.{
  leave-IsLeased, begin_check-IsLeased, after_callback-IsLeased, shutdown-IsLeased, stop-IsLeased,
  revoke-IsLeased,
}

step-IsLeased : {c : ScheduleConfig} {s t : Scheduling} → Step c s t → IsLeased c s → IsLeased c t
step-IsLeased {c} {s} (asks m) h = schedule_processing-IsLeased c m s h
step-IsLeased {c} {s} (continues m) h = begin_continue-IsLeased c m s h.owned h.idle
step-IsLeased {c} {s} (step_begins m) h = in_step-IsLeased c m s h
step-IsLeased {c} {s} (step_ends m) h = end_step-IsLeased c m s h
step-IsLeased {c} {s} (run_ends m) h = end_continue-IsLeased c m s h
step-IsLeased {c} {s} (backs_off m delay_ms) h = error_retry-IsLeased c m delay_ms s h
step-IsLeased {c} {s} {t} (wakes m kind e) h = deliver_wake-IsLeased c m kind s t e h
step-IsLeased {c} {s} (checks m has_input) h = begin_check-IsLeased c m has_input s h
step-IsLeased {c} {s} (answers m v) h = after_callback-IsLeased c m v s h
step-IsLeased {c} {s} (check_ends m number o) h = leave-IsLeased c m number s o h
step-IsLeased {c} {s} (shuts_down m given) h = shutdown-IsLeased c m given s h
step-IsLeased {c} {s} (stops m) h = stop-IsLeased c m s h
step-IsLeased {c} {s} (is_revoked m) h = revoke-IsLeased c m s h
step-IsLeased {c} {s} (outside now call o) h = record {
  owned =
      perform-Owned (scheduled_reason c) s.step_operation s.scheduled_lease now call s.activity o
        h.owned;
  leased = h.leased;
  idle = h.idle;
}

new-IsLeased : (c : ScheduleConfig) (now : ℕ) → IsLeased c (new_scheduling (fresh_activity now))
new-IsLeased c now = record {
  owned = record { numbered = tt; counted = refl; holds = tt; avoids = tt };
  leased = λ e. absurd (ground (arith, e));
  idle = λ e. absurd (ground (arith, e));
}

reaches-IsLeased :
    {c : ScheduleConfig} {s t : Scheduling} → Reaches c s t → IsLeased c s → IsLeased c t
reaches-IsLeased start h = h
reaches-IsLeased (then_step r e) h = step-IsLeased e (reaches-IsLeased r h)

-- From the agent's and the runtime's construction on, whatever calls, wakes, checks, stops and
-- calls of others on the runtime follow in whatever order: the runtime has one open lease for the
-- agent's schedule while the agent holds it and none else, so none is leaked or released twice;
-- the lease is held only while a run is scheduled; and no run is scheduled while a turn runs or
-- after a shutdown, a stop or a revocation.
pub reachable-IsLeased :
    (c : ScheduleConfig) (now : ℕ) (s : Scheduling)
    → Reaches c (new_scheduling (fresh_activity now)) s
    → (open_for (scheduled_reason c) s.activity.leases ≡ held_count s.scheduled_lease)
      × (is_some s.scheduled_lease ≡ true → s.scheduled ≡ true)
      × (s.scheduled ≡ true → is_halted s ≡ false)
reachable-IsLeased c now s r =
    let h = reaches-IsLeased r (new-IsLeased c now) in (h.owned.counted, h.leased, h.idle)
