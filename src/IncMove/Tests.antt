-- ===== src/IncMove/Tests.antt =====
-- The speed limit on the axes of the sample robot.
use motoros.Prelude.{◌+◌, ◌≤◌, ◌≡◌, ◌≢◌, ◌⊎◌, refl, pos, ◌-ℤ◌, true, false, List, [], ◌∷◌, map, abs}
use motoros.Queue.Tests.{two_increments-IsRing, two_increments-AllAxes}
use motoros.IncMove.{Axis, max_inc, limit, limit_group, is_missing_pulse, left_over}
use motoros.IncMove.Limit.{limit-sent}
use motoros.IncMove.Accounts.{
  CycleInput, run, add_all, balance, run-balance, limit_group-on_track, sent_of, left_of,
}
use motoros.IncMove.Cycle.{Loop}
use motoros.IncMove.Cycle
use motoros.IncMove.Pass.{IsComplete, IsKept, cycle-holds}
use motoros.Controller.{
  is_motion_ready, is_alarm, is_error, is_estop, is_play, is_continuous_cycle, is_remote,
  is_servo_on, is_hold, is_pfl_active, is_mp_inc_move_error_active, is_operating,
  master_task_is_job_name, is_waiting_ros, has_data_in_queue,
}
use motoros.Sample.Robot.{robot, six_axes, eight, resting_axis, resting_track, ready_state, calm}

-- Thirty pulses are left of a move of ten pulses per cycle.
abbrev slow_axis : Axis
slow_axis = record resting_axis { to_process = pos 30; prev_max_speed = pos 10 }

limit-sent_example :
    let s = (limit slow_axis).sent in
    ((slow_axis.to_process ≡ pos 0) × (s ≡ slow_axis.sent))
    ⊎ ((slow_axis.to_process ≢ pos 0)
        × (abs s ≤ max_inc slow_axis)
        × (abs s + abs (slow_axis.to_process -ℤ s) ≡ abs slow_axis.to_process)
        × ((s ≡ slow_axis.to_process) ⊎ (abs s ≡ max_inc slow_axis)))
limit-sent_example = limit-sent slow_axis

ten_sent : (limit slow_axis).sent ≡ pos 10
unfolding limit max_inc
ten_sent = refl

-- Ten pulses are sent, of which the controller processes seven in the next cycle.
abbrev two_cycles : List CycleInput
two_cycles =
    record { queue_read = true; pulses = eight (pos 10); position = eight (pos 0) }
    ∷ record { queue_read = true; pulses = eight (pos 10); position = eight (pos 7) }
    ∷ []

run-balance_example :
    map balance (run two_cycles resting_track.axes)
    ≡ add_all two_cycles (map balance resting_track.axes)
run-balance_example = run-balance two_cycles resting_track.axes (refl, refl, (refl, refl, tt))

limit_group-on_track_example :
    let r = limit_group true (eight (pos 10)) (eight (pos 0)) resting_track.axes in
    (r.skip_reading ≡ false)
    × (map sent_of r.axes ≡ eight (pos 10))
    × (map left_of r.axes ≡ eight (pos 10))
unfolding is_missing_pulse left_over ◌-ℤ◌
limit_group-on_track_example =
    limit_group-on_track true (eight (pos 10)) (eight (pos 0)) resting_track.axes refl refl refl

abbrev complete : IsComplete six_axes resting_track (eight (pos 0))
complete = record {
  ring = two_increments-IsRing;
  all_axes = two_increments-AllAxes;
  tracked = refl;
  reported = refl;
}

-- One robot, with something left to process, in a state in which motion may be made
abbrev one_track : Loop
one_track = record { tracks = resting_track ∷ []; has_unprocessed_data = true }

cycle-holds_example :
    let (l', s') = Cycle.cycle robot calm true one_track ready_state in
    IsKept robot ready_state.world 2 six_axes resting_track s'.ctl.groups l'.tracks 0
unfolding is_motion_ready is_alarm is_error is_estop is_play is_continuous_cycle is_remote
    is_servo_on is_hold is_pfl_active is_mp_inc_move_error_active is_operating
    master_task_is_job_name is_waiting_ros has_data_in_queue
cycle-holds_example =
    cycle-holds robot calm true one_track ready_state 2 0 six_axes resting_track refl refl refl refl
      complete
