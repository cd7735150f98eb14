-- ===== src/ActionServer/Tests.antt =====
-- A goal of two points for the sample robot, which is ready and stands still.
use motoros.Prelude.{ℕ, refl, ℤ, pos, true, none, List, [], ◌∷◌, replicate}
use motoros.Data.{trajectory}
use motoros.Platform.{State}
use motoros.Trajectory.{Point}
use motoros.Sample.{SampleWorld}
use motoros.Sample.Robot.{robot, six_axes, ready_state, calm}
use motoros.ActionServer.{unknown_state, empty_text, Goal, Server, Feedback, ResultCodes}
use motoros.ActionServer.Tolerance.{Name}
use motoros.ActionServer.Handlers.{Client, goal_received}
use motoros.ActionServer.Protocol.{
  Session, initialize, receive, Reachable, begins, then_step, IsOrderly,
}
use motoros.ActionServer.Orderly.{Reachable-IsOrderly}

abbrev names : List Name
names = (1 ∷ []) ∷ (2 ∷ []) ∷ (3 ∷ []) ∷ (4 ∷ []) ∷ (5 ∷ []) ∷ (6 ∷ []) ∷ []

abbrev codes : ResultCodes
codes = record {
  successful_code = pos 0;
  invalid_goal = ℤ.negsuc 0;
  goal_tolerance_violated = ℤ.negsuc 4;
  ready_code = λ c. 100;
}

-- A result always arrives.
abbrev client : Client SampleWorld
client = record {
  codes = codes;
  default_tolerance = 1;
  epoch_nanos = λ w. pos 5;
  joint_names = λ w. names;
  joint_positions = λ w. replicate 6 9;
  publish_feedback = λ w g f. w;
  send_result = λ w g s r. (true, w);
}

abbrev six_at : ℕ → ℕ → Point
six_at seconds position = record {
  time_from_start = record { sec = pos seconds; nanosec = 0 };
  positions = replicate 6 position;
  velocities = replicate 6 0;
}

-- The third joint has a tolerance of its own, twice.
abbrev goal : Goal
goal = record {
  handle = 1;
  joint_names = names;
  points = six_at 0 0 ∷ six_at 2 9 ∷ [];
  goal_tolerance =
      record { name = 3 ∷ []; position = 0 } ∷ record { name = 3 ∷ []; position = 4 } ∷ [];
  goal_time_tolerance = record { sec = pos 0; nanosec = 0 };
}

abbrev arrived : Feedback
arrived = record {
  joint_names = names;
  actual = replicate 6 9;
  desired = replicate 6 9;
  error = replicate 6 0;
}

abbrev new_server : Server
new_server = initialize (record {
  active = none;
  rejected = none;
  message_ready = true;
  response = record { status = unknown_state; error_code = pos 0; error_string = empty_text };
  goal_state = unknown_state;
  feedback = arrived;
  start_time = pos 0;
})

abbrev in_trajectory_mode : State robot
in_trajectory_mode = record ready_state {
  ctl = record ready_state.ctl {
    active_motion_mode = trajectory;
    groups = record six_axes { joint_names = names } ∷ [];
  };
}

abbrev before : Session
before = record { server = new_server; received = 0; answered = 0 }

abbrev given : Session
given = record {
  server = (goal_received robot client calm goal (new_server, in_trajectory_mode)).0;
  received = 1;
  answered = 0;
}

given-Reachable : Reachable robot client calm given
given-Reachable =
    then_step before given (begins new_server) (receive goal in_trajectory_mode refl refl)

Reachable-IsOrderly_example : IsOrderly robot client calm given
Reachable-IsOrderly_example = Reachable-IsOrderly robot client calm given given-Reachable
