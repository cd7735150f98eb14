-- ===== src/Sample/Robot.antt =====
-- A robot of six axes for the sample controller: its queue holds two increments, its double numbers
-- are whole, and the signals of a world decide whether it may move.
use motoros.Prelude.{
  ℕ, ◌+◌, ◌-◌, ◌*◌, ◌/◌, ℤ, pos, Bool, true, false, ◌||◌, none, List, [], ◌∷◌, ◌++◌, ltb, ◌==◌, abs,
  replicate, if◌then◌else◌,
}
use motoros.MotoPlus.{yrc1000}
use motoros.Data.{
  axis_rotation, axis_invalid, inactive, IncrementalData, IncrementalQ, CtrlGroup, Controller,
  no_coord, RobotStatus,
}
use motoros.Fpu.{Fpu}
use motoros.CtrlGroup.{GroupIds}
use motoros.Platform.{Platform, State, Environment}
use motoros.Queue.{zero_increment}
use motoros.IncMove.{Axis}
use motoros.IncMove.Cycle.{Track}
use motoros.Sample.{SampleWorld, sample, quiet_world}

abbrev pub whole_fpu : Fpu
whole_fpu = record {
  add = λ a b. a + b;
  sub = λ a b. a - b;
  mul = λ a b. a * b;
  div = λ a b. a / b;
  neg = λ a. a;
  fabs = λ a. a;
  lt = λ a b. ltb a b;
  of_int = λ z. abs z;
  to_int = λ n. pos n;
  epsilon = 0;
  millionth = 0;
  rad_per_degree = 1;
  degrees_per_rad = 1;
  ten_thousandth = 0;
  sin = λ a. a;
  cos = λ a. 1;
  asin = λ a. a;
  atan2 = λ a b. a;
}

abbrev pub sample_ids : GroupIds
sample_ids = record { r1_gid = 0; r8_gid = 7; b1_gid = 8; b8_gid = 15; s1_gid = 16; s24_gid = 39 }

abbrev pub robot : Platform
robot = record {
  api = sample;
  fpu = whole_fpu;
  ids = sample_ids;
  pulse_dtype = 0;
  e_ctrl_grp = pos 1;
  e_imov_unready = pos 2;
  e_pfl_func_busy = pos 3;
  e_under_energy_saving = pos 4;
  max_alarm_count = 4;
}

abbrev pub eight : ℤ → List ℤ
eight z = replicate 8 z

abbrev pub increment : ℕ → ℤ → IncrementalData
increment t z = record { time = t; frame = 0; user = 0; tool = 0; inc = eight z }

abbrev pub two_increments : IncrementalQ
two_increments = record {
  cnt = 2;
  idx = 0;
  entries = increment 4 (pos 10) ∷ increment 8 (pos 20) ∷ replicate 198 zero_increment;
}

abbrev pub six_axes : CtrlGroup
six_axes = record {
  group_no = 0;
  num_axes = 6;
  group_id = 0;
  pulse_to_rad = replicate 8 1;
  pulse_to_meter = replicate 8 1;
  corrections = [];
  max_inc = replicate 8 100;
  max_speed = replicate 8 1;
  tool = 0;
  inc_q = two_increments;
  q_time = 4;
  trajectory_iterator = none;
  prev_trajectory_iterator = none;
  trajectory_to_process = [];
  has_data_to_process = false;
  time_leftover_ms = 0;
  prev_pulse_pos = eight (pos 0);
  axis_type = replicate 6 axis_rotation ++ replicate 2 axis_invalid;
  joint_names = [];
  is_baxis_slave = false;
  base_track_group_id = none;
  base_track_group_index = none;
  base_track_info = record { motion_type = []; offset = no_coord };
  calibration = no_coord;
  speed_feedback = none;
}

abbrev pub no_status : RobotStatus
no_status = record {
  drives_powered = false;
  e_stopped = false;
  in_motion = false;
  mode_auto = false;
  motion_possible = false;
  in_error = false;
  error_codes = [];
}

abbrev pub is_listed : ℕ → List ℕ → Bool
is_listed a [] = false
is_listed a (x ∷ xs) = (a == x) || is_listed a xs

-- The addresses of the signals that are on when the robot may move: play, remote, operating,
-- servo, the three emergency stops, waiting for ROS, continuous cycle.
abbrev pub ready_addresses : List ℕ
ready_addresses = 50054 ∷ 80011 ∷ 50070 ∷ 50073 ∷ 80025 ∷ 80026 ∷ 80027 ∷ 11120 ∷ 50052 ∷ []

abbrev pub world_with : List ℕ → SampleWorld
world_with addresses = record quiet_world {
  memory = λ a. if is_listed a addresses then 1 else 0;
  job = 73 ∷ [];
  position = λ g. eight (pos 0);
}

-- The same signals by their index in the controller.
abbrev pub ready_signals : List ℕ
ready_signals = 5 ∷ 7 ∷ 8 ∷ 10 ∷ 11 ∷ 12 ∷ 13 ∷ 14 ∷ 16 ∷ []

abbrev pub controller_with : List ℕ → Controller
controller_with signals = record {
  model = yrc1000;
  inform_job_name = 73 ∷ [];
  interpol_period = 4;
  groups = six_axes ∷ [];
  total_axes_count = 6;
  io_status = λ i. if is_listed i signals then 1 else 0;
  alarm_code = pos 0;
  stop_motion = false;
  pfl_enabled = true;
  pfl_during_ros_move = false;
  mp_inc_move_error = false;
  prev_alarm_state = false;
  all_groups_init_complete = true;
  active_motion_mode = inactive;
  must_initialize_point_queue = false;
  status = no_status;
}

abbrev pub ready_state : State robot
ready_state = record { ctl = controller_with ready_signals; world = world_with ready_addresses }

abbrev pub held_state : State robot
held_state = record ready_state {
  world = record (world_with ready_addresses) { lock_held = λ g. true };
}

-- Nothing happens while the program sleeps.
abbrev pub calm : Environment robot
calm = λ ms s. s

abbrev pub resting_axis : Axis
resting_axis = record {
  new_inc = pos 0;
  to_process = pos 0;
  processed = pos 0;
  max_speed = pos 0;
  max_speed_remain = pos 0;
  prev_max_speed = pos 0;
  prev_max_speed_remain = pos 0;
  prev_pos = pos 0;
  sent = pos 0;
  max_increment = 100;
}

abbrev pub resting_track : Track
resting_track = record {
  skip_reading = false;
  queue_read = false;
  move = record { tool = 0; frame = 0; user = 0; pos = eight (pos 0) };
  axes = replicate 8 resting_axis;
}
