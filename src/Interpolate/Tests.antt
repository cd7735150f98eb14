-- ===== src/Interpolate/Tests.antt =====
-- A segment of ten milliseconds for the sample robot, whose controller has a period of four.
use motoros.Prelude.{ℕ, ◌≡◌, refl, some, true, [], ◌∷◌, map, arith, replicate}
use motoros.Data.{JointMotionData, CtrlGroup, trajectory}
use motoros.Platform.{State}
use motoros.Trajectory.Init.{no_point}
use motoros.Queue.{enqueue}
use motoros.Controller.{
  is_motion_ready, is_alarm, is_error, is_estop, is_play, is_continuous_cycle, is_remote,
  is_servo_on, is_hold, is_pfl_active, is_mp_inc_move_error_active, is_operating,
  master_task_is_job_name, is_waiting_ros,
}
use motoros.Sample.Robot.{robot, six_axes, ready_state, calm}
use motoros.Interpolate.{Segment, start_clock, tick, next_point, increment_to}
use motoros.Interpolate.Points.{first_locals, advance, segment_of}
use motoros.Interpolate.Plan.{part}
use motoros.Interpolate.Others.{Keeps-refl}
use motoros.Interpolate.Task.{Run, interpolate, add_pulse_inc_point_to_q, add_to_inc_queue_process}
use motoros.Interpolate.UnderWay.{Follows}
use motoros.Interpolate.Tooled.{AllTooled}
use motoros.Interpolate.Followed.{interpolate-Follows}

abbrev point_at : ℕ → ℕ → JointMotionData
point_at ms place = record { valid = true; time = ms; pos = replicate 8 place; vel = replicate 8 0 }

abbrev nothing_beyond : CtrlGroup → JointMotionData
nothing_beyond g = no_point

abbrev moving : CtrlGroup
moving = record six_axes {
  trajectory_to_process = point_at 0 0 ∷ point_at 10 50 ∷ replicate 198 no_point;
  trajectory_iterator = some 1;
  prev_trajectory_iterator = some 0;
  has_data_to_process = true;
}

abbrev moving_state : State robot
moving_state = record ready_state {
  ctl = record ready_state.ctl { groups = moving ∷ []; active_motion_mode = trajectory };
}

abbrev still : Segment
still = record { start = point_at 0 0; tool = 0; coefficients = [] }

interpolate-Follows_example :
    let l = first_locals 4 0 1 0 moving in
    let r = interpolate robot nothing_beyond calm 11 3 0 still l moving_state in
    Follows robot nothing_beyond 0 4 still 2 l (part moving) r
    × AllTooled robot.pulse_dtype 0 r.increments
interpolate-Follows_example =
    interpolate-Follows robot nothing_beyond calm 0 2 11 3 0 1 moving_state still
      (λ ms t. Keeps-refl robot 0 t) (omega arith) (omega arith) (omega arith) (omega arith)
      (omega arith) (omega arith) (omega arith)
      (record {
        all_points = refl;
        all_pulses = refl;
        all_types = refl;
        all_rad = refl;
        all_meter = refl;
        cur_full = refl;
        fin_full = refl;
      })
      refl (omega arith) (omega arith)

abbrev one_turn : Run robot nothing_beyond
one_turn = add_to_inc_queue_process robot nothing_beyond calm 11 3 0 moving_state

times : map (λ d. d.time) one_turn.increments ≡ 4 ∷ 8 ∷ 10 ∷ []
unfolding add_to_inc_queue_process start_clock advance increment_to tick next_point
    add_pulse_inc_point_to_q interpolate segment_of is_motion_ready is_alarm is_error is_estop
    is_play is_continuous_cycle is_remote is_servo_on is_hold is_pfl_active
    is_mp_inc_move_error_active is_operating master_task_is_job_name is_waiting_ros enqueue
times = refl
