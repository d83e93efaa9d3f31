-- ===== src/Agent/Schedule.antt =====
-- The scheduling flags of an agent, packages/sdk/src/core/agents/agent.ts: when a run is delayed,
-- started, asked for again and dropped, over the leases of the session's runtime. What a call reads
-- around it (the store, the agent's state, the clock, the host) is a moment. Requests to the host
-- are kept, latest first: wakes by key, and the plain timers of the debounce callback.
pub mod Steps
pub mod Leased
pub mod Kept
pub mod Checks
pub mod Reachable
pub mod Wanted
pub mod Asked
use roj.Base.{
  ℕ, ◌+◌, String, Bool, true, false, not, ◌&&◌, ◌||◌, Option, none, some, List, [], ◌∷◌,
  if◌then◌else◌, ◌==◌, get_or, ◌+ₛ◌, Result, ok, err,
}
use roj.WakeKey.{AgentWakeKind, debounce, retry}
use roj.Activity.{
  RuntimeState, Activity, fresh_activity, is_ready, try_acquire, try_operation, release,
}

pub data HostRequest : Type 0 where
  arm_wake : AgentWakeKind → (delay_ms : ℕ) → HostRequest
  cancel_wake : AgentWakeKind → HostRequest
  set_timer : (handle interval_ms : ℕ) → HostRequest
  clear_timer : (handle : ℕ) → HostRequest

pub record Scheduling : Type 0 where
  pub processing : Bool
  pub scheduled : Bool
  pub pending_reschedule : Bool
  pub error_retry_armed : Bool
  pub locally_stopped : Bool
  -- The signal of the abort controller.
  pub aborted : Bool
  -- `scheduler`, once it was resolved.
  pub has_scheduler : Bool
  pub debounce_check_timer : Option ℕ
  pub timers : ℕ
  -- The leases behind `releaseScheduledLease` and `stepOperation`.
  pub scheduled_lease : Option ℕ
  pub step_operation : Option ℕ
  pub activity : Activity
  pub requests : List HostRequest

pub record Moment : Type 0 where
  pub now : ℕ
  -- `store.isClosed()`
  pub closed : Bool
  -- The agent's state is there.
  pub has_state : Bool
  -- The session's context can be had, and with it the host's scheduler.
  pub reachable : Bool

pub record ScheduleConfig : Type 0 where
  pub id : String
  pub debounce_callback : Bool
  pub check_interval_ms : Option ℕ
  pub debounce_ms : Option ℕ

abbrev pub new_scheduling : Activity → Scheduling
new_scheduling activity = record {
  processing = false;
  scheduled = false;
  pending_reschedule = false;
  error_retry_armed = false;
  locally_stopped = false;
  aborted = false;
  has_scheduler = false;
  debounce_check_timer = none;
  timers = 0;
  scheduled_lease = none;
  step_operation = none;
  activity = activity;
  requests = [];
}

abbrev pub lease_reason : ScheduleConfig → String → String
lease_reason c what = "agent:" +ₛ c.id +ₛ what

abbrev pub scheduled_reason : ScheduleConfig → String
scheduled_reason c = lease_reason c ":scheduled"

abbrev pub step_reason : ScheduleConfig → String
step_reason c = lease_reason c ":step"

abbrev pub check_reason : ScheduleConfig → String
check_reason c = lease_reason c ":debounce-check"

abbrev pub release_held : ℕ → Option ℕ → Activity → Activity
release_held now none a = a
release_held now (some number) a = release now number a

unfoldable pub drop_scheduled_lease : Moment → Scheduling → Scheduling
drop_scheduled_lease m s = record s {
  scheduled_lease = none;
  activity = release_held m.now s.scheduled_lease s.activity;
}

-- `enqueueScheduler`: nothing is asked of the host after a local stop or without a scheduler.
unfoldable pub enqueue_scheduler : Moment → HostRequest → Scheduling → Scheduling
enqueue_scheduler m q s =
    if s.locally_stopped
    then s
    else if s.has_scheduler || m.reachable
    then record s { has_scheduler = true; requests = q ∷ s.requests }
    else s

abbrev pub cleared : Option ℕ → List HostRequest → List HostRequest
cleared none qs = qs
cleared (some handle) qs = clear_timer handle ∷ qs

abbrev pub clear_check : Scheduling → Scheduling
clear_check s = record s {
  debounce_check_timer = none;
  requests = cleared s.debounce_check_timer s.requests;
}

abbrev pub unscheduled : Scheduling → Scheduling
unscheduled s = record s { scheduled = false; pending_reschedule = false }

unfoldable pub cancel_schedule : Moment → Scheduling → Scheduling
unfolding enqueue_scheduler drop_scheduled_lease
cancel_schedule m s =
    drop_scheduled_lease m
      (unscheduled (enqueue_scheduler m (cancel_wake debounce) (clear_check s)))

-- `scheduleCheck`
abbrev pub schedule_check : ScheduleConfig → Scheduling → Scheduling
schedule_check c s = record s {
  debounce_check_timer = some s.timers;
  timers = s.timers + 1;
  requests = set_timer s.timers (get_or c.check_interval_ms 100) ∷ s.requests;
}

-- `scheduleProcessing` once the lease is taken.
unfoldable pub start_delay : ScheduleConfig → Moment → Scheduling → Scheduling
unfolding cancel_schedule enqueue_scheduler
start_delay c m s =
    if not m.has_state
    then cancel_schedule m s
    else if c.debounce_callback
    then schedule_check c s
    else enqueue_scheduler m (arm_wake debounce (get_or c.debounce_ms 500)) s

abbrev pub with_lease : ScheduleConfig → Moment → Scheduling → Option ℕ × Activity → Scheduling
with_lease c m s (none, a) = s
with_lease c m s (some number, a) =
    start_delay c m (record s { activity = a; scheduled_lease = some number; scheduled = true })

unfoldable pub schedule_processing : ScheduleConfig → Moment → Scheduling → Scheduling
unfolding cancel_schedule start_delay try_acquire
schedule_processing c m s =
    if s.locally_stopped || not (is_ready s.activity.state)
    then s
    else if s.scheduled
    then s
    else if m.closed
    then s
    else if s.aborted
    then s
    else if s.processing
    then record s { pending_reschedule = true }
    else let idle = cancel_schedule m s in
      with_lease c m idle (try_acquire m.now (scheduled_reason c) idle.activity)

-- `runContinue` up to its loop, and whether the loop is run.
unfoldable pub begin_continue : Moment → Scheduling → Bool × Scheduling
unfolding drop_scheduled_lease
begin_continue m s =
    let free = drop_scheduled_lease m s in
    if s.processing || m.closed || s.locally_stopped
    then (false, free)
    else (true, record free { processing = true; scheduled = false })

-- The operation around one round of the loop.
abbrev pub in_step : Scheduling → Option ℕ × Activity → Bool × Scheduling
in_step s (none, a) = (false, s)
in_step s (some number, a) = (true, record s { activity = a; step_operation = some number })

unfoldable pub begin_step : ScheduleConfig → Moment → Scheduling → Bool × Scheduling
unfolding try_operation
begin_step c m s = in_step s (try_operation m.now (step_reason c) s.activity)

unfoldable pub end_step : Moment → Scheduling → Scheduling
end_step m s = record s {
  step_operation = none;
  activity = release_held m.now s.step_operation s.activity;
}

-- The end of `runContinue`.
unfoldable pub end_continue : ScheduleConfig → Moment → Scheduling → Scheduling
unfolding schedule_processing
end_continue c m s =
    let over = record s { processing = false } in
    if s.pending_reschedule
    then schedule_processing c m (record over { pending_reschedule = false })
    else over

unfoldable pub schedule_error_retry : Moment → ℕ → Scheduling → Scheduling
unfolding enqueue_scheduler
schedule_error_retry m delay_ms s =
    if s.error_retry_armed
    then s
    else if m.closed
    then s
    else if s.aborted
    then s
    else enqueue_scheduler m (arm_wake retry delay_ms) (record s { error_retry_armed = true })

-- `deliverWake` up to the run it starts. It throws when the runtime is not available.
abbrev pub delivered : ScheduleConfig → Moment → AgentWakeKind → Scheduling → Scheduling
delivered c m debounce s = (begin_continue m (record s { scheduled = false })).1
delivered c m retry s = schedule_processing c m (record s { error_retry_armed = false })

unfoldable pub deliver_wake :
    ScheduleConfig → Moment → AgentWakeKind → Scheduling → Result RuntimeState Scheduling
unfolding begin_continue schedule_processing
deliver_wake c m kind s =
    if is_ready s.activity.state
    then ok (if s.aborted then s else delivered c m kind s)
    else err s.activity.state

-- `runDebounceCheck` up to the callback: the operation it holds if the callback is asked, where
-- `has_input` says that there are messages, tool results or pending input.
abbrev check_in : Moment → Bool → Scheduling → Option ℕ × Activity → Option ℕ × Scheduling
check_in m has_input s (none, a) = (none, s)
check_in m has_input s (some number, a) =
    let held = record s { activity = a } in
    let leave = λ (u : Scheduling). record u { activity = release m.now number u.activity } in
    if not m.has_state
    then (none, leave (cancel_schedule m held))
    else if not s.scheduled
    then (none, leave held)
    else if not has_input
    then (none, leave (cancel_schedule m held))
    else (some number, held)

unfoldable pub begin_check : ScheduleConfig → Moment → Bool → Scheduling → Option ℕ × Scheduling
unfolding try_operation cancel_schedule
begin_check c m has_input s =
    check_in m has_input s (try_operation m.now (check_reason c) s.activity)

-- What the callback answers, or that something threw.
pub data Verdict : Type 0 where
  process_now wait failed : Verdict

-- The rest of the check; its operation is released by `end_check` after it.
unfoldable pub after_callback : ScheduleConfig → Moment → Verdict → Scheduling → Scheduling
unfolding cancel_schedule begin_continue
after_callback c m failed s = cancel_schedule m s
after_callback c m process_now s =
    if s.scheduled then (begin_continue m (cancel_schedule m s)).1 else s
after_callback c m wait s = if s.scheduled then schedule_check c s else s

unfoldable pub end_check : Moment → ℕ → Scheduling → Scheduling
end_check m number s = record s { activity = release m.now number s.activity }

-- `shutdown`, with the scheduler that the caller's activity gives.
unfoldable pub shutdown : Moment → Bool → Scheduling → Scheduling
unfolding cancel_schedule enqueue_scheduler
shutdown m given s =
    let ended =
      cancel_schedule m (record s { has_scheduler = given || s.has_scheduler; aborted = true }) in
    enqueue_scheduler m (cancel_wake retry) (record ended { error_retry_armed = false })

unfoldable pub stop_local_scheduling : Moment → Scheduling → Scheduling
unfolding drop_scheduled_lease
stop_local_scheduling m s =
    drop_scheduled_lease m (unscheduled (clear_check (record s { locally_stopped = true })))

-- `revoke` of the agent.
unfoldable pub revoke_agent : Moment → Scheduling → Scheduling
unfolding stop_local_scheduling
revoke_agent m s = record (stop_local_scheduling m s) { aborted = true }
