-- ===== src/Startup.antt =====
-- Ros_CtrlGroup_Create of src/CtrlGroup.c: a control group from the parameters of the controller.
pub mod Initialize
pub mod Fresh
pub mod Created
pub mod Ready
pub mod Cycle
pub mod Waited
mod Tests
use motoros.Prelude.{
  ℕ, zero, suc, ◌+◌, ◌-◌, ◌*◌, ℤ, pos, Bool, true, false, ◌&&◌, Option, none, some, List, [], ◌∷◌,
  ltb_ℤ, leb, ◌==◌, pos_part, get_or, set, replicate, if◌then◌else◌,
}
use motoros.MotoPlus.{Model, dx100, fs100, dx200, yrc1000, yrc1000u}
use motoros.Data.{
  Double, AxisType, axis_invalid, FbAxisCorrection, BaseAxisInfo, no_coord, IncrementalQ, CtrlGroup,
  grp_axes_num, q_size,
}
use motoros.Fpu.{Fpu}
use motoros.CtrlGroup.{GroupIds, to_ros_pos, no_doubles}
use motoros.Queue.{zero_increment}
use motoros.Trajectory.Init.{no_points}
use motoros.Platform.{Platform, World, State}
use motoros.Controller.{feedback_failure}

-- What a call that reads a parameter answers: whether its status is OK, and what it has written.
abbrev pub Answer : Type 0 → Type 0
Answer A = Bool × A

-- The parameters of the controller, as the GP_.. and mp.. calls give them by the index of a group, and
-- whether the tasks can be created
pub record Parameters : Type 0 where
  -- GP_getNumberOfGroups and GP_getNumberOfAxes
  pub group_count : ℤ
  pub axis_count : ℕ → ℤ
  -- mpCtrlGrpId2GrpNo, where none is -1, mpCtrlGrpNo2GrpId, and -1 as an MP_GRP_ID_TYPE
  pub group_number : ℕ → Option ℕ
  pub group_id : ℕ → ℕ
  pub no_group_id : ℕ
  -- mpGetToolNo of a group, and GP_getBaseAxisInfo
  pub tool_no : ℕ → ℕ
  pub base_axis_info : ℕ → BaseAxisInfo
  pub axis_motion_type : ℕ → Answer (List AxisType)
  pub pulse_to_rad : ℕ → Answer (List Double)
  pub pulse_to_meter : ℕ → Answer (List Double)
  pub fb_pulse_correction : ℕ → Answer (List FbAxisCorrection)
  -- GP_getMaxIncPerIpCycle with the interpolation period
  pub max_inc_per_ip_cycle : ℕ → ℕ → Answer (List ℕ)
  pub is_baxis_slave : ℕ → Answer Bool
  -- GP_getFeedbackSpeedMRegisterAddresses, told whether the group is the last one
  pub speed_registers : ℕ → Bool → Answer (Option (List (ℕ × ℕ)))
  pub is_pfl_enabled : Answer Bool
  pub interpolation_period : Answer ℕ
  -- mpCreateTask of the interpolation of a group, and of the motion loop
  pub interpolation_starts : ℕ → Bool
  pub motion_loop_starts : Bool

-- The search through the identifiers, `n` left, from `id` on
unfoldable pub search_group_id : (ℕ → Option ℕ) → ℕ → ℕ → ℕ → Option ℕ
search_group_id group_number index zero id = none
search_group_id group_number index (suc n) id =
    let later = search_group_id group_number index n (id + 1) in
    elim (group_number id) [ none ↦ later | some k ↦ if index == k then some id else later ]

abbrev pub no_base_info : BaseAxisInfo
no_base_info = record { motion_type = []; offset = no_coord }

-- The queue that was allocated and cleared
abbrev pub empty_queue : IncrementalQ
empty_queue = record { cnt = 0; idx = 0; entries = replicate q_size zero_increment }

-- The loop that takes an axis that cannot move as invalid: `n` axes left, from axis `i` on
unfoldable pub adjust_types : List ℕ → ℕ → ℕ → List AxisType → List AxisType
adjust_types max_inc zero i types = types
adjust_types max_inc (suc n) i types =
    adjust_types max_inc n (i + 1)
      (if get_or max_inc i 0 == 0 then set types i axis_invalid else types)

abbrev pub or_zero : Option ℕ → ℕ → ℕ
or_zero none d = d
or_zero (some x) d = x

module _ (ids : GroupIds) (m : Parameters) where
  -- Ros_mpCtrlGrpNo2GrpId: MP_S24_GID itself is not tried.
  unfoldable pub group_id_of : Model → ℕ → ℕ
  unfolding search_group_id
  group_id_of yrc1000 index = m.group_id index
  group_id_of yrc1000u index = m.group_id index
  group_id_of _ index =
      or_zero (search_group_id m.group_number index (ids.s24_gid - ids.r1_gid) ids.r1_gid)
        m.no_group_id

  abbrev pub is_robot_id : ℕ → Bool
  is_robot_id id = leb ids.r1_gid id && leb id ids.r8_gid

  -- The identifier of the base with the number of a robot
  abbrev pub base_id : ℕ → ℕ
  base_id id = id - ids.r1_gid + ids.b1_gid

  abbrev pub base_index : ℕ → Option ℕ
  base_index id = if is_robot_id id then m.group_number (base_id id) else none

  abbrev pub when_based : Option ℕ → ℕ → Option ℕ
  when_based none id = none
  when_based (some k) id = some (base_id id)

  abbrev pub base_info : Option ℕ → BaseAxisInfo
  base_info none = no_base_info
  base_info (some k) = m.base_axis_info k

  -- bInitOk behind the calls for a group
  abbrev pub reads_ok : ℕ → ℕ → Bool
  reads_ok period index =
      (m.axis_motion_type index).0
      && (m.pulse_to_rad index).0
      && (m.pulse_to_meter index).0
      && (m.fb_pulse_correction index).0
      && (m.max_inc_per_ip_cycle index period).0
      && (m.is_baxis_slave index).0

  abbrev pub registers_if_ok : Answer (Option (List (ℕ × ℕ))) → Option (List (ℕ × ℕ))
  registers_if_ok a = if a.0 then a.1 else none

  -- maxSpeedPulse, in pulses per second, from axis `i` on
  unfoldable pub max_speed_pulses : Fpu → ℕ → List ℕ → ℕ → ℕ → List ℤ
  max_speed_pulses fpu period max_inc zero i = []
  max_speed_pulses fpu period max_inc (suc n) i =
      fpu.to_int (
        fpu.div (fpu.mul (fpu.of_int (pos (get_or max_inc i 0))) (fpu.of_int (pos 1000)))
          (fpu.of_int (pos period)))
      ∷ max_speed_pulses fpu period max_inc n (i + 1)

  -- The group that is filled in before its maximum speed is computed
  unfoldable pub filled_group : Model → ℕ → Bool → ℕ → CtrlGroup
  unfolding group_id_of adjust_types
  filled_group model period last index =
      let id = group_id_of model index in
      let base = base_index id in
      let max_inc = (m.max_inc_per_ip_cycle index period).1 in
      record {
        group_no = index;
        num_axes = pos_part (m.axis_count index);
        group_id = id;
        pulse_to_rad = (m.pulse_to_rad index).1;
        pulse_to_meter = (m.pulse_to_meter index).1;
        corrections = (m.fb_pulse_correction index).1;
        max_inc = max_inc;
        max_speed = no_doubles;
        tool = (if is_robot_id id then m.tool_no id else 0);
        inc_q = empty_queue;
        q_time = 0;
        trajectory_iterator = none;
        prev_trajectory_iterator = none;
        trajectory_to_process = no_points;
        has_data_to_process = false;
        time_leftover_ms = 0;
        prev_pulse_pos = replicate grp_axes_num (pos 0);
        axis_type = adjust_types max_inc grp_axes_num 0 (m.axis_motion_type index).1;
        joint_names = replicate grp_axes_num [];
        is_baxis_slave = (pos_part (m.axis_count index) == 5) && (m.is_baxis_slave index).1;
        base_track_group_id = when_based base id;
        base_track_group_index = base;
        base_track_info = base_info base;
        calibration = no_coord;
        speed_feedback = registers_if_ok (m.speed_registers index last);
      }

  unfoldable pub new_group : Fpu → Model → ℕ → Bool → ℕ → CtrlGroup
  unfolding filled_group max_speed_pulses to_ros_pos
  new_group fpu model period last index =
      let g = filled_group model period last index in
      record g {
        max_speed =
            to_ros_pos fpu ids g (max_speed_pulses fpu period g.max_inc grp_axes_num 0) no_doubles;
      }

abbrev pub alarm_task_create_fail : ℕ
alarm_task_create_fail = 8010

abbrev pub subcode_add_to_inc_q : ℕ
subcode_add_to_inc_q = 3

module _ (p : Platform) (m : Parameters) where
  -- Ros_Controller_SetIOState
  abbrev pub set_io_state : World p → ℕ → ℕ → World p
  set_io_state w signal status = (p.api.write_io w ((signal, status) ∷ [])).1

  -- A task that cannot be created
  abbrev pub task_failed : World p → ℕ → World p
  task_failed w subcode =
      p.api.set_alarm (set_io_state w feedback_failure 1) alarm_task_create_fail subcode

  abbrev pub launch : Bool → CtrlGroup → World p → Option CtrlGroup × World p
  launch true g w = (some g, w)
  launch false g w = (none, task_failed w subcode_add_to_inc_q)

  -- Ros_CtrlGroup_Create; none is NULL.
  unfoldable pub create_group : Model → ℕ → Bool → ℕ → World p → Option CtrlGroup × World p
  unfolding new_group
  create_group model period last index w =
      if ltb_ℤ (pos 0) (m.axis_count index) && reads_ok p.ids m period index
      then launch (m.interpolation_starts index) (new_group p.ids m p.fpu model period last index) w
      else (none, w)
