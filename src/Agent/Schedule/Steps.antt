-- ===== src/Agent/Schedule/Steps.antt =====
-- An agent's scheduling as a machine: its calls and those of others on the same runtime, in any
-- order and at any moments.
use roj.Base.{ℕ, Bool, true, ◌≡◌, ok}
use roj.WakeKey.{AgentWakeKind}
use roj.Activity.{find_lease}
use roj.Activity.Calls.{Call, perform}
use roj.Activity.Owned.{is_other}
use roj.Activity.Owned.Calls.{is_foreign}
use roj.Agent.Schedule.{
  Scheduling, Moment, ScheduleConfig, scheduled_reason, schedule_processing, begin_continue,
  begin_step, end_step, end_continue, schedule_error_retry, deliver_wake, begin_check, Verdict,
  after_callback, end_check, shutdown, stop_local_scheduling, revoke_agent,
}

pub data Step (c : ScheduleConfig) : Scheduling → Scheduling → Type 0 where
  asks : {s : Scheduling} (m : Moment) → Step c s (schedule_processing c m s)
  continues : {s : Scheduling} (m : Moment) → Step c s (begin_continue m s).1
  step_begins : {s : Scheduling} (m : Moment) → Step c s (begin_step c m s).1
  step_ends : {s : Scheduling} (m : Moment) → Step c s (end_step m s)
  run_ends : {s : Scheduling} (m : Moment) → Step c s (end_continue c m s)
  backs_off :
      {s : Scheduling} (m : Moment) (delay_ms : ℕ) → Step c s (schedule_error_retry m delay_ms s)
  wakes :
      {s t : Scheduling} (m : Moment) (kind : AgentWakeKind)
      → deliver_wake c m kind s ≡ ok t
      → Step c s t
  checks :
      {s : Scheduling} (m : Moment) (has_input : Bool) → Step c s (begin_check c m has_input s).1
  answers : {s : Scheduling} (m : Moment) (v : Verdict) → Step c s (after_callback c m v s)
  shuts_down : {s : Scheduling} (m : Moment) (given : Bool) → Step c s (shutdown m given s)
  stops : {s : Scheduling} (m : Moment) → Step c s (stop_local_scheduling m s)
  is_revoked : {s : Scheduling} (m : Moment) → Step c s (revoke_agent m s)
  check_ends :
      {s : Scheduling} (m : Moment) (number : ℕ)
      → is_other (scheduled_reason c) (find_lease number s.activity.leases) ≡ true
      → Step c s (end_check m number s)
  -- Whatever others do with the runtime.
  outside :
      {s : Scheduling} (now : ℕ) (call : Call)
      → is_foreign (scheduled_reason c) s.activity call ≡ true
      → Step c s (record s { activity = perform now call s.activity })

pub data Reaches (c : ScheduleConfig) (s : Scheduling) : Scheduling → Type 0 where
  start : Reaches c s s
  then_step : {t u : Scheduling} → Reaches c s t → Step c t u → Reaches c s u
