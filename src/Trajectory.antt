-- ===== src/Trajectory.antt =====
-- The points of a trajectory: times in milliseconds (src/TimeConversionUtils.h) and the conversion
-- of one joint of all points into the points of a control group
-- (Ros_MotionControl_ConvertTrajectoryToJointMotionData of src/MotionControl.c).
pub mod Converted
pub mod Init
pub mod Started
pub mod Queued
pub mod Refused
mod Tests
use motoros.Prelude.{
  ℕ, zero, suc, ◌+◌, ◌-◌, ◌*◌, ◌%◌, ◌^◌, ℤ, pos, negsuc, ◌+ℤ◌, Bool, true, false, not, ◌&&◌, List,
  [], ◌∷◌, ltb, leb, ◌==◌, eqb_ℤ, ltb_ℤ, pos_part, get_or, set, if◌then◌else◌,
}
use motoros.Data.{Double, JointMotionData}
use motoros.Fpu.{Fpu}

-- builtin_interfaces/Duration: `sec` is an int32, `nanosec` a uint32.
pub record Duration : Type 0 where
  pub sec : ℤ
  pub nanosec : ℕ

-- trajectory_msgs/JointTrajectoryPoint, as far as it is read
pub record Point : Type 0 where
  pub time_from_start : Duration
  pub positions : List Double
  pub velocities : List Double

-- The codes of Init_Trajectory_Status that are given here.
pub data InitStatus : Type 0 where
  init_ok init_too_small init_already_in_motion init_invalid_starting_pos init_invalid_velocity
        init_invalid_jointname init_incomplete_jointlist init_invalid_time init_backward_time
        init_wrong_number_of_positions init_wrong_number_of_velocities init_invalid_ending_velocity
        init_duplicate_joint_name :
      InitStatus

-- A number modulo 2 ^ 32 as an int32
abbrev signed_32 : ℕ → ℤ
signed_32 r = if ltb r (2 ^ 31) then pos r else negsuc (2 ^ 32 - r - 1)

-- `sec * 1000` in 32 bits, as it wraps
unfoldable pub thousand_times : ℤ → ℤ
thousand_times (pos n) = signed_32 (n * 1000 % 2 ^ 32)
thousand_times (negsuc n) = signed_32 ((2 ^ 32 - suc n * 1000 % 2 ^ 32) % 2 ^ 32)

abbrev pub value_at : List Double → ℕ → Double
value_at xs i = get_or xs i 0

abbrev pub is_last : List Point → Bool
is_last [] = true
is_last (pt ∷ pts) = false

-- What a point of the group becomes when joint `axis` of a point is stored as its axis `to_axis`.
abbrev pub store : ℕ → ℕ → ℕ → Point → JointMotionData → JointMotionData
store axis to_axis time pt d = record d {
  time = time;
  pos = set d.pos to_axis (value_at pt.positions axis);
  vel = set d.vel to_axis (value_at pt.velocities axis);
}

module _ (fpu : Fpu) where
  -- Ros_Duration_Msg_To_Millis
  unfoldable pub to_millis : Duration → ℤ
  unfolding thousand_times
  to_millis d =
      thousand_times d.sec +ℤ fpu.to_int (fpu.mul (fpu.of_int (pos d.nanosec)) fpu.millionth)

  -- `fabs(velocity) > EPSILON_TOLERANCE_DOUBLE`
  abbrev pub is_moving : Double → Bool
  is_moving velocity = fpu.lt fpu.epsilon (fpu.fabs velocity)

  -- The loop over the points from the `i`-th on: `prev` is the time of the point before. The first
  -- argument says that a whole trajectory is converted. A write behind the end of the array is not
  -- part of the model: the points that have no place are left out.
  unfoldable pub convert :
      Bool → ℕ → ℕ → ℕ → ℕ → List Point → List JointMotionData → InitStatus × List JointMotionData
  unfolding to_millis
  convert whole axis to_axis i prev (pt ∷ pts) (d ∷ ds) =
      let millis = to_millis pt.time_from_start in
      let time = pos_part millis in
      let rest = convert whole axis to_axis (i + 1) time pts ds in
      if ltb_ℤ millis (pos 0)
      then (init_invalid_time, d ∷ ds)
      else if eqb_ℤ millis (pos 0) && not (i == 0)
      then (init_invalid_time, d ∷ ds)
      else if not (i == 0) && ltb time prev
      then (init_backward_time, record d { time = time } ∷ ds)
      else if whole && is_last pts && is_moving (value_at pt.velocities axis)
      then (init_invalid_ending_velocity, record d { time = time } ∷ ds)
      else (rest.0, store axis to_axis time pt d ∷ rest.1)
  convert whole axis to_axis i prev _ ds = (init_ok, ds)
