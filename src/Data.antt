-- ===== src/Data.antt =====
-- The data of src/CtrlGroup.h, src/ControllerStatusIO.h and src/MotionControl.h, with the globals of
-- src/MotionControl.c.
use motoros.Prelude.{ℕ, ℤ, pos, Bool, List, Option}
use motoros.MotoPlus.{Model}

-- A double is its 64 bits, so that `bzero` writes 0 and `memcpy` copies; its arithmetic is `Fpu`.
abbrev pub Double : Type 0
Double = ℕ

abbrev pub q_size : ℕ
q_size = 200

-- MP_GRP_AXES_NUM and MAX_PULSE_AXES of the M+ headers: a group has room for eight axes.
abbrev pub grp_axes_num : ℕ
grp_axes_num = 8

abbrev pub max_points : ℕ
max_points = 200

pub data AxisType : Type 0 where
  axis_rotation axis_linear axis_invalid : AxisType

pub record IncrementalData : Type 0 where
  pub time : ℕ
  pub frame : ℕ
  pub user : ℕ
  pub tool : ℕ
  pub inc : List ℤ

-- Incremental_q, whose lock is the controller's
pub record IncrementalQ : Type 0 where
  pub cnt : ℕ
  pub idx : ℕ
  pub entries : List IncrementalData

pub record JointMotionData : Type 0 where
  pub valid : Bool
  pub time : ℕ
  pub pos : List Double
  pub vel : List Double

-- MP_COORD: a position in micrometers and angles in 0.0001 degrees
pub record Coord : Type 0 where
  pub x : ℤ
  pub y : ℤ
  pub z : ℤ
  pub rx : ℤ
  pub ry : ℤ
  pub rz : ℤ

abbrev pub no_coord : Coord
no_coord = record { x = pos 0; y = pos 0; z = pos 0; rx = pos 0; ry = pos 0; rz = pos 0 }

-- MOTION_TYPE of an axis of a base
pub data MotionType : Type 0 where
  motion_x motion_y motion_z motion_rx motion_ry motion_rz other_motion : MotionType

-- BASE_AXIS_INFO, as far as it is read
pub record BaseAxisInfo : Type 0 where
  pub motion_type : List MotionType
  pub offset : Coord

-- FB_AXIS_CORRECTION
pub record FbAxisCorrection : Type 0 where
  pub valid : Bool
  pub source_axis : ℕ
  pub correction_axis : ℕ
  pub ratio : Double

-- The two iterators are pointers into `trajectory_to_process`: an index, or NULL.
pub record CtrlGroup : Type 0 where
  pub group_no : ℕ
  pub num_axes : ℕ
  pub group_id : ℕ
  pub pulse_to_rad : List Double
  pub pulse_to_meter : List Double
  pub corrections : List FbAxisCorrection
  pub max_inc : List ℕ
  pub max_speed : List Double
  pub tool : ℕ
  pub inc_q : IncrementalQ
  pub q_time : ℕ
  pub trajectory_iterator : Option ℕ
  pub prev_trajectory_iterator : Option ℕ
  pub trajectory_to_process : List JointMotionData
  pub has_data_to_process : Bool
  pub time_leftover_ms : ℕ
  pub prev_pulse_pos : List ℤ
  pub axis_type : List AxisType
  pub joint_names : List (List ℕ)
  pub is_baxis_slave : Bool
  -- -1 is `none`
  pub base_track_group_id : Option ℕ
  pub base_track_group_index : Option ℕ
  pub base_track_info : BaseAxisInfo
  -- robotCalibrationToBaseFrame
  pub calibration : Coord
  -- The two registers of each axis with the speed of the feedback; none if it is not enabled
  pub speed_feedback : Option (List (ℕ × ℕ))

pub data MotionMode : Type 0 where
  inactive trajectory point_queue : MotionMode

-- industrial_msgs/RobotStatus, as far as it is computed from the controller
pub record RobotStatus : Type 0 where
  pub drives_powered : Bool
  pub e_stopped : Bool
  pub in_motion : Bool
  pub mode_auto : Bool
  pub motion_possible : Bool
  pub in_error : Bool
  pub error_codes : List ℕ

-- g_Ros_Controller, the globals of src/MotionControl.c, the robot status message and the
-- configured job name. `numGroup` is the length of `groups`.
pub record Controller : Type 0 where
  pub model : Model
  pub inform_job_name : List ℕ
  pub interpol_period : ℕ
  pub groups : List CtrlGroup
  pub total_axes_count : ℕ
  pub io_status : ℕ → ℕ
  pub alarm_code : ℤ
  pub stop_motion : Bool
  pub pfl_enabled : Bool
  pub pfl_during_ros_move : Bool
  pub mp_inc_move_error : Bool
  pub prev_alarm_state : Bool
  pub all_groups_init_complete : Bool
  pub active_motion_mode : MotionMode
  pub must_initialize_point_queue : Bool
  pub status : RobotStatus
