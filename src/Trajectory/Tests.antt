-- ===== src/Trajectory/Tests.antt =====
-- Points of one joint, and a trajectory of the sample robot.
use motoros.Prelude.{
  some, length, ◌≢◌, ◌⊎◌, ◌↔◌, ◌≡◌, refl, true, false, [], ◌∷◌, List, pos, ◌+ℤ◌, ◌-ℤ◌, replicate, ℕ,
  arith,
}
use motoros.Data.{JointMotionData, Controller, point_queue}
use motoros.Trajectory.{
  Point, convert, to_millis, init_ok, init_backward_time, init_already_in_motion, thousand_times,
}
use motoros.Trajectory.Converted.{IsAccepted, IsConverted, convert-IsConverted}
use motoros.Sample.Robot.{
  whole_fpu, robot, six_axes, controller_with, ready_signals, world_with, ready_addresses,
}
use motoros.Motion.Stop.{has_data_to_process}
use motoros.Trajectory.Queued.{queue_success, some_busy, queue_traj_point_trigger}
use motoros.Trajectory.Refused.{IsTaken, queue_traj_point_trigger-cases}
use motoros.Trajectory.Init.{init, is_duplicated, find_joint, find_axis, set_points}
use motoros.CtrlGroup.{ros_to_moto_units, get_pulse_pos_cmd}
use motoros.Trajectory.Started.{
  IsRefused, IsReleased, has_joint, first_failure, checks_of, init-cases,
}

abbrev point_at : ℕ → ℕ → ℕ → Point
point_at seconds position velocity = record {
  time_from_start = record { sec = pos seconds; nanosec = 0 };
  positions = position ∷ [];
  velocities = velocity ∷ [];
}

abbrev empty : JointMotionData
empty = record { valid = false; time = 0; pos = replicate 8 0; vel = replicate 8 0 }

abbrev two_points : List Point
two_points = point_at 0 3 1 ∷ point_at 2 5 0 ∷ []

abbrev room : List JointMotionData
room = replicate 4 empty

two_points_ok : (convert whole_fpu true 0 2 0 0 two_points room).0 ≡ init_ok
unfolding convert to_millis thousand_times ◌+ℤ◌
two_points_ok = refl

convert-IsConverted_example : ((convert whole_fpu true 0 2 0 0 two_points room).0 ≡ init_ok) ↔ (
    IsAccepted whole_fpu true 0 2 0 0 two_points room
    × IsConverted whole_fpu true 0 2 0 0 two_points
        (convert whole_fpu true 0 2 0 0 two_points room).1)
convert-IsConverted_example =
    convert-IsConverted whole_fpu true 0 2 0 0 two_points room (omega arith)

-- As points of one trajectory they must not go back in time.
backward : (convert whole_fpu false 0 2 1 5000 (point_at 2 5 0 ∷ []) room).0 ≡ init_backward_time
unfolding convert to_millis thousand_times ◌+ℤ◌
backward = refl

-- The six joints of the sample robot are named 1 to 6, and a trajectory of two points begins where
-- the robot is.
abbrev names : List (List ℕ)
names = (1 ∷ []) ∷ (2 ∷ []) ∷ (3 ∷ []) ∷ (4 ∷ []) ∷ (5 ∷ []) ∷ (6 ∷ []) ∷ []

abbrev named : Controller
named = record (controller_with ready_signals) {
  groups = record six_axes { joint_names = names } ∷ [];
}

abbrev six_at : ℕ → ℕ → Point
six_at seconds position = record {
  time_from_start = record { sec = pos seconds; nanosec = 0 };
  positions = replicate 6 position;
  velocities = replicate 6 0;
}

abbrev start_and_goal : List Point
start_and_goal = six_at 0 0 ∷ six_at 2 9 ∷ []

init-cases_example :
    let r = init robot names start_and_goal named (world_with ready_addresses) in
    ((has_data_to_process named.groups ≡ true) × (r.0 ≡ init_already_in_motion) × (r.1 ≡ named))
    ⊎ ((has_data_to_process named.groups ≡ false)
        × (r.0
            ≡ first_failure
                (checks_of robot names start_and_goal named (world_with ready_addresses)))
        × (IsRefused robot r ⊎ IsReleased robot (has_joint names named.groups) r))
init-cases_example = init-cases robot names start_and_goal named (world_with ready_addresses)

accepted : (init robot names start_and_goal named (world_with ready_addresses)).0 ≡ init_ok
unfolding init has_data_to_process is_duplicated find_joint find_axis convert ◌+ℤ◌ set_points ◌-ℤ◌
    ros_to_moto_units get_pulse_pos_cmd
accepted = refl

-- The queue has been started, and its first point has been reached.
abbrev queueing : Controller
queueing = record named {
  active_motion_mode = point_queue;
  must_initialize_point_queue = false;
  groups =
      record six_axes {
        joint_names = names;
        trajectory_iterator = some 1;
        trajectory_to_process = replicate 4 empty;
      }
      ∷ [];
}

queue_traj_point_trigger-cases_example :
    let r =
      queue_traj_point_trigger robot names (six_at 2 9) queueing (world_with ready_addresses) in
    ((r.0 ≢ queue_success) × (r.1 ≡ queueing))
    ⊎ (((r.0 ≢ queue_success)
          × (some_busy queueing.groups ≡ false)
          × (some_busy r.1.groups ≡ false))
        ⊎ ((r.0 ≡ queue_success)
            × (some_busy queueing.groups ≡ false)
            × (queueing.total_axes_count ≡ length names)
            × IsTaken robot names queueing r.1))
queue_traj_point_trigger-cases_example =
    queue_traj_point_trigger-cases robot names (six_at 2 9) queueing (world_with ready_addresses)
      refl refl
