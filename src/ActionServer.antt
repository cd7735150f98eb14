-- ===== src/ActionServer.antt =====
-- The server of the action FollowJointTrajectory (src/ActionServer_FJT.c): its state, and what does
-- not depend on the robot.
pub mod Tolerance
pub mod Judged
pub mod Handlers
pub mod Lookup
pub mod Protocol
pub mod Orderly
pub mod Replies
pub mod Received
mod Tests
use motoros.Prelude.{
  ℕ, zero, suc, ◌+◌, ◌-◌, ◌*◌, ◌%◌, ◌^◌, ℤ, pos, negsuc, ◌-ℤ◌, Bool, true, false, not, ◌&&◌, ◌||◌,
  ◌^◌, Option, List, [], ◌∷◌, length, ltb, ltb_ℤ, ◌==◌, eqb_ℤ, leb_ℤ, get_or, if◌then◌else◌,
}
use motoros.Data.{Double}
use motoros.Fpu.{Fpu}
use motoros.Controller.{MotionNotReadyCode}
use motoros.Trajectory.{
  Duration, Point, InitStatus, init_ok, init_too_small, init_already_in_motion,
  init_invalid_starting_pos, init_invalid_velocity, init_invalid_jointname,
  init_incomplete_jointlist, init_invalid_time, init_backward_time, init_wrong_number_of_positions,
  init_wrong_number_of_velocities, init_invalid_ending_velocity, init_duplicate_joint_name,
}
use motoros.ActionServer.Tolerance.{Name, JointTolerance}

-- rcl_action_goal_state_t, as far as it is used
pub data GoalState : Type 0 where
  unknown_state succeeded aborted canceled : GoalState

-- GOAL_END_TYPE
pub data GoalEnd : Type 0 where
  complete cancel abort_due_to_error : GoalEnd

-- What `error_string` says. A code of the initialisation selects its own sentence.
pub data Text : Type 0 where
  empty_text too_many_points must_call_service successful parsing_failed time_outside cancelled
        aborted_by_alarm :
      Text
  not_ready_text : MotionNotReadyCode → Text
  init_text : InitStatus → Text
  -- the joints whose deviation is not 0
  position_outside : List Name → Text

-- A goal handle with its request. The executor is set up for a single handle, so the request of the
-- handle and the buffer of the request are the same.
pub record Goal : Type 0 where
  pub handle : ℕ
  pub joint_names : List Name
  pub points : List Point
  pub goal_tolerance : List JointTolerance
  pub goal_time_tolerance : Duration

-- The answer to the request for the result
pub record Response : Type 0 where
  pub status : GoalState
  pub error_code : ℤ
  pub error_string : Text

-- The positions of the feedback message
pub record Feedback : Type 0 where
  pub joint_names : List Name
  pub actual : List Double
  pub desired : List Double
  pub error : List Double

pub record Server : Type 0 where
  pub active : Option Goal
  pub rejected : Option Goal
  pub message_ready : Bool
  pub response : Response
  pub goal_state : GoalState
  pub feedback : Feedback
  pub start_time : ℤ

-- The constants of control_msgs/FollowJointTrajectory
pub record ResultCodes : Type 0 where
  pub successful_code : ℤ
  pub invalid_goal : ℤ
  pub goal_tolerance_violated : ℤ
  -- the numbers of MotionReadyEnum
  pub ready_code : MotionNotReadyCode → ℕ

abbrev hundred_thousand_times : ℤ → ℤ
hundred_thousand_times (pos n) = pos (n * 100000)
hundred_thousand_times (negsuc n) = negsuc (suc n * 100000 - 1)

-- RESULT_REPONSE_ERROR_CODE
unfoldable pub result_error_code : ℤ → ℕ → ℤ
result_error_code ros_code motoman_code = hundred_thousand_times ros_code -ℤ pos motoman_code

-- Init_Trajectory_Status of src/ErrorHandling.h
unfoldable pub init_code : InitStatus → ℕ
init_code init_ok = 0
init_code init_too_small = 200
init_code init_already_in_motion = 202
init_code init_invalid_starting_pos = 203
init_code init_invalid_velocity = 204
init_code init_invalid_jointname = 205
init_code init_incomplete_jointlist = 206
init_code init_invalid_time = 207
init_code init_backward_time = 209
init_code init_wrong_number_of_positions = 210
init_code init_wrong_number_of_velocities = 211
init_code init_invalid_ending_velocity = 212
init_code init_duplicate_joint_name = 214

abbrev pub init_traj_too_big : ℕ
init_traj_too_big = 201

abbrev pub init_traj_wrong_mode : ℕ
init_traj_wrong_mode = 208

abbrev pub fail_traj_cancel : ℕ
fail_traj_cancel = 300

abbrev pub fail_traj_position : ℕ
fail_traj_position = 301

abbrev pub fail_traj_time : ℕ
fail_traj_time = 302

abbrev pub fail_traj_alarm : ℕ
fail_traj_alarm = 303

abbrev pub fail_traj_tolerance_parse : ℕ
fail_traj_tolerance_parse = 304

-- Ros_Duration_Msg_To_Nanos
unfoldable pub to_nanos : Duration → ℤ
to_nanos d = elim d.sec [
  | pos n ↦ pos (n * 1000000000 + d.nanosec)
  | negsuc n ↦ pos d.nanosec -ℤ pos (suc n * 1000000000)
]

abbrev pub default_time_tolerance : ℤ
default_time_tolerance = pos 500000000

-- The low 32 bits of an integer, as an int: this is what `abs` gets. (Of the least int it is
-- undefined.)
unfoldable pub to_int_32 : ℤ → ℤ
to_int_32 (pos n) = let r = n % 2 ^ 32 in if ltb r (2 ^ 31) then pos r else negsuc (2 ^ 32 - r - 1)
to_int_32 (negsuc n) =
    let r = n % 2 ^ 32 in if ltb r (2 ^ 31) then negsuc r else pos (2 ^ 32 - r - 1)

abbrev pub abs_int : ℤ → ℕ
abs_int (pos n) = n
abs_int (negsuc n) = suc n

-- `abs(desiredTime - totalTime) <= timeTolerance`. The difference is an int64, and `abs` takes an
-- int. The comparison in doubles is exact for these numbers.
unfoldable pub is_time_ok : ℤ → ℤ → Duration → Bool
unfolding to_int_32 to_nanos
is_time_ok desired total tolerance =
    let given = to_nanos tolerance in
    let tolerated = if eqb_ℤ given (pos 0) then default_time_tolerance else given in
    leb_ℤ (pos (abs_int (to_int_32 (desired -ℤ total)))) tolerated

module _ (fpu : Fpu) (default : Double) where
  open fpu use {sub, fabs, lt}

  -- `x == 0.0`, which also holds for -0.0
  abbrev pub is_zero : Double → Bool
  is_zero x = (x == 0) || (x == 2 ^ 63)

  -- A tolerance of 0.0 means the default, a negative one that the axis is not checked.
  unfoldable pub is_violated : Double → Double → Bool
  is_violated diff tolerance =
      let chosen = if is_zero tolerance then default else tolerance in lt 0 chosen && lt chosen diff

  -- The loop over the axes, `n` of them left from `i` on: the deviations of the axes that are out of
  -- tolerance, and 0 for the others.
  unfoldable pub violators : ℕ → ℕ → List Double → List Double → List Double → List Double
  unfolding is_violated
  violators zero i last actual tolerances = []
  violators (suc n) i last actual tolerances =
      let diff = fabs (sub (get_or last i 0) (get_or actual i 0)) in
      (if is_violated diff (get_or tolerances i 0) then diff else 0)
      ∷ violators n (suc i) last actual tolerances

  -- `positionOk` after the same loop
  unfoldable pub is_position_ok : ℕ → ℕ → List Double → List Double → List Double → Bool
  unfolding is_violated
  is_position_ok zero i last actual tolerances = true
  is_position_ok (suc n) i last actual tolerances =
      let rest = is_position_ok n (suc i) last actual tolerances in
      if is_violated (fabs (sub (get_or last i 0) (get_or actual i 0))) (get_or tolerances i 0)
      then false
      else rest
