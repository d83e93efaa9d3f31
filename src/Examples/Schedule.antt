-- ===== src/Examples/Schedule.antt =====
-- The theorems on an agent's schedule, at an agent that is asked to run, is woken and stopped.
use roj.Base.{◌≡◌, refl, true, false, none, some, is_some}
use roj.Activity.{fresh_activity, release, try_operation, take_lease}
use roj.Activity.Leases.{open_for}
use roj.Activity.Owned.{held_count}
use roj.Agent.Schedule.{
  Scheduling, Moment, ScheduleConfig, scheduled_reason, schedule_processing, begin_continue,
  begin_step, end_continue, new_scheduling,
}
use roj.Agent.Schedule.Steps.{asks, continues, run_ends, Reaches, start, then_step}
use roj.Agent.Schedule.Leased.{is_halted}
use roj.Agent.Schedule.Asked.{end_continue-asked}
use roj.Agent.Schedule.Wanted.{Open, at_first, round_begins}
use roj.Agent.Schedule.Reachable.{reachable-IsLeased}

abbrev config : ScheduleConfig
config = record {
  id = "a1";
  debounce_callback = false;
  check_interval_ms = none;
  debounce_ms = none;
}

abbrev moment : Moment
moment = record { now = 7; closed = false; has_state = true; reachable = true }

-- A run is scheduled, starts, is asked for again while it runs, and ends.
abbrev asked_again : Scheduling
asked_again = end_continue config moment (
    schedule_processing config moment
      (begin_continue moment
        (schedule_processing config moment (new_scheduling (fresh_activity 7)))).1)

asked_again_reached : Reaches config (new_scheduling (fresh_activity 7)) asked_again
asked_again_reached =
    then_step
      (then_step (then_step (then_step start (asks moment)) (continues moment)) (asks moment))
      (run_ends moment)

asked_again_scheduled : (asked_again.scheduled ≡ true) × (asked_again.scheduled_lease ≡ some 1)
unfolding end_continue schedule_processing begin_continue release
asked_again_scheduled = (refl, refl)

reachable-IsLeased_example :
    (open_for (scheduled_reason config) asked_again.activity.leases
      ≡ held_count asked_again.scheduled_lease)
    × (is_some asked_again.scheduled_lease ≡ true → asked_again.scheduled ≡ true)
    × (asked_again.scheduled ≡ true → is_halted asked_again ≡ false)
reachable-IsLeased_example = reachable-IsLeased config 7 asked_again asked_again_reached

abbrev in_turn : Scheduling
in_turn = record (new_scheduling (fresh_activity 7)) { processing = true }

moment-Open : Open moment in_turn
moment-Open = record {
  open_store = refl;
  there = refl;
  running = refl;
  not_aborted = refl;
  ready = refl;
}

-- The turn of an agent that is asked to run begins one more round.
abbrev asked_in_turn : Scheduling
asked_in_turn = (begin_step config moment (schedule_processing config moment in_turn)).1

still-Open : Open moment asked_in_turn
unfolding begin_step schedule_processing try_operation take_lease
still-Open = record {
  open_store = refl;
  there = refl;
  running = refl;
  not_aborted = refl;
  ready = refl;
}

end_continue-asked_example : (end_continue config moment asked_in_turn).scheduled ≡ true
end_continue-asked_example =
    end_continue-asked config moment moment in_turn asked_in_turn refl refl moment-Open
      (round_begins moment at_first) still-Open
