-- ===== src/Controller.antt =====
-- The state of the controller as MotoROS2 tracks it (src/ControllerStatusIO.c), with the queries on
-- the increment queues of src/MotionControl.c that it uses.
mod StatusIndex
pub mod Update
pub mod Signals
pub mod Cleared
pub mod Readiness
mod Tests
pub use StatusIndex.*
use motoros.Prelude.{
  ℕ, zero, suc, ◌+◌, ℤ, pos, negsuc, ◌-ℤ◌, Bool, true, false, not, ◌&&◌, ◌||◌, Option, none, some,
  List, [], ◌∷◌, ltb, ◌==◌, eqb_ℤ, ltb_ℤ, abs, get_or, get_elem?, length, if◌then◌else◌,
}
use motoros.MotoPlus.{Model, dx100, fs100, dx200, yrc1000, yrc1000u}
use motoros.Data.{
  CtrlGroup, Controller, MotionMode, inactive, trajectory, point_queue, grp_axes_num,
}
use motoros.CtrlGroup.{is_robot, is_station, is_invalid_axis, get_pulse_pos_cmd, get_fb_pulse_pos}
use motoros.Platform.{Platform, World}

abbrev common_addresses : List ℕ → List ℕ
common_addresses more =
    50010 ∷ 50011 ∷ 50012 ∷ 50013 ∷ 50014 ∷ 50054 ∷ 50053 ∷ 80011 ∷ 50070 ∷ 50071 ∷ 50073 ∷ 80025
    ∷ 80026 ∷ 80027 ∷ feedback_waiting_mp_incmove ∷ 50727 ∷ 50052 ∷ more

-- The table that Ros_Controller_StatusInit fills, in the order of IoStatusIndex.
unfoldable pub io_status_addr : Model → List ℕ
io_status_addr m =
    common_addresses (if has_pfl m then 81702 ∷ 81703 ∷ 15120 ∷ 15124 ∷ 15125 ∷ [] else [])

-- `ioStatus[i] != 0`
abbrev pub is_on : Controller → ℕ → Bool
is_on c i = not (c.io_status i == 0)

unfoldable pub is_alarm : Controller → Bool
is_alarm c =
    is_on c alarm_major || is_on c alarm_minor || is_on c alarm_system || is_on c alarm_user

unfoldable pub is_error : Controller → Bool
is_error c = is_on c error

unfoldable pub is_play : Controller → Bool
is_play c = is_on c play

unfoldable pub is_remote : Controller → Bool
is_remote c = is_on c remote

unfoldable pub is_operating : Controller → Bool
is_operating c = is_on c operating

unfoldable pub is_hold : Controller → Bool
is_hold c = is_on c hold

unfoldable pub is_eco_mode : Controller → Bool
is_eco_mode c = is_on c in_eco_mode

unfoldable pub is_servo_on : Controller → Bool
unfolding is_eco_mode
is_servo_on c = is_on c servo && not (is_eco_mode c)

unfoldable pub is_estop : Controller → Bool
is_estop c = not (is_on c estop_ex) || not (is_on c estop_pp) || not (is_on c estop_ctrl)

unfoldable pub is_waiting_ros : Controller → Bool
is_waiting_ros c = is_on c waiting_ros

unfoldable pub is_continuous_cycle : Controller → Bool
is_continuous_cycle c = is_on c cont_cyc_mode

unfoldable pub is_pfl_active : Controller → Bool
is_pfl_active c =
    has_pfl c.model
    && c.pfl_enabled
    && (c.pfl_during_ros_move
        || is_on c pfl_stop
        || is_on c pfl_escape
        || is_on c pfl_avoiding && (is_on c pfl_avoid_joint || is_on c pfl_avoid_trans))

unfoldable pub is_mp_inc_move_error_active : Controller → Bool
is_mp_inc_move_error_active c = c.mp_inc_move_error

unfoldable pub is_any_fault_active : Controller → Bool
is_any_fault_active c = is_alarm c || is_error c || is_mp_inc_move_error_active c || is_pfl_active c

-- MotionNotReadyCode of src/ErrorHandling.h
pub data MotionNotReadyCode : Type 0 where
  ready not_ready_unspecified not_ready_alarm not_ready_error not_ready_estop not_ready_not_play
        not_ready_not_remote not_ready_servo_off not_ready_hold not_ready_not_started
        not_ready_waiting_ros not_ready_pfl_active not_ready_inc_move_error
        not_ready_other_program_running not_ready_other_traj_mode_active
        not_ready_not_cont_cycle_mode :
      MotionNotReadyCode

abbrev pub is_ready : MotionNotReadyCode → Bool
is_ready ready = true
is_ready _ = false

-- `strncmp(a, b, n) == 0` on the characters of two strings, without their final NUL
unfoldable pub strncmp_eq : ℕ → List ℕ → List ℕ → Bool
strncmp_eq zero a b = true
strncmp_eq (suc n) [] [] = true
strncmp_eq (suc n) [] (y ∷ b) = false
strncmp_eq (suc n) (x ∷ a) [] = false
strncmp_eq (suc n) (x ∷ a) (y ∷ b) = (x == y) && strncmp_eq n a b

-- Ros_MotionControl_IsMotionMode_Trajectory and .._PointQueue; raw streaming is never active.
abbrev pub is_motion_mode_trajectory : Controller → Bool
is_motion_mode_trajectory c = elim c.active_motion_mode [ trajectory ↦ true | _ ↦ false ]

abbrev pub is_motion_mode_point_queue : Controller → Bool
is_motion_mode_point_queue c = elim c.active_motion_mode [ point_queue ↦ true | _ ↦ false ]

-- The integer ERROR of the M+ API, and a BOOL that is tested
abbrev pub error_code : ℤ
error_code = negsuc 0

abbrev pub truthy : ℤ → Bool
truthy z = not (eqb_ℤ z (pos 0))

-- Ros_Controller_ShouldWarnNoCalibDataLoaded
module _ (p : Platform) where
  count_calibrated : List CtrlGroup → ℕ
  unfolding is_robot is_station
  count_calibrated [] = 0
  count_calibrated (g ∷ gs) =
      (if is_robot p.ids g || is_station p.ids g then 1 else 0) + count_calibrated gs

  unfoldable pub should_warn_no_calib_data_loaded : Controller → Bool → Bool → Bool
  unfolding count_calibrated
  should_warn_no_calib_data_loaded c calib_loaded_ok publish_tf_enabled =
      ltb 1 (count_calibrated c.groups) && publish_tf_enabled && not calib_loaded_ok

  unfoldable pub master_task_is_job_name : World p → List ℕ → Bool
  unfolding strncmp_eq
  master_task_is_job_name w name = strncmp_eq p.api.max_job_name_len (p.api.get_cur_job w) name

  unfoldable pub get_not_ready_subcode : Controller → World p → MotionNotReadyCode
  get_not_ready_subcode c w =
      if is_alarm c
      then not_ready_alarm
      else if is_error c
      then not_ready_error
      else if is_estop c
      then not_ready_estop
      else if not (is_play c)
      then not_ready_not_play
      else if not (is_continuous_cycle c)
      then not_ready_not_cont_cycle_mode
      else if not (is_remote c)
      then not_ready_not_remote
      else if not (is_servo_on c)
      then not_ready_servo_off
      else if is_hold c
      then not_ready_hold
      else if is_pfl_active c
      then not_ready_pfl_active
      else if is_mp_inc_move_error_active c
      then not_ready_inc_move_error
      else if not (is_operating c)
      then not_ready_not_started
      else if not (master_task_is_job_name w c.inform_job_name)
      then not_ready_other_program_running
      else if not (is_waiting_ros c)
      then not_ready_waiting_ros
      else ready

  unfoldable pub is_motion_ready : Controller → World p → Bool
  unfolding get_not_ready_subcode
  is_motion_ready c w = is_ready (get_not_ready_subcode c w)

  -- Ros_MotionControl_GetQueueCnt of a group that exists
  abbrev queue_count : World p → CtrlGroup → ℤ
  queue_count w g = if p.api.sem_take w g.group_no then pos g.inc_q.cnt else error_code

  -- Ros_MotionControl_GetQueueCnt
  unfoldable pub get_queue_cnt : Controller → World p → ℕ → ℤ
  get_queue_cnt c w group_no = elim (get_elem? c.groups group_no) [
    | none ↦ error_code
    | some g ↦ queue_count w g
  ]

  -- The loop of Ros_MotionControl_HasDataInQueue over the groups that are left.
  unfoldable pub has_data_from : World p → List CtrlGroup → ℤ
  has_data_from w [] = pos 0
  has_data_from w (g ∷ gs) =
      let rest = has_data_from w gs in
      let count = queue_count w g in
      if ltb_ℤ (pos 0) count then pos 1 else if eqb_ℤ count error_code then error_code else rest

  -- Ros_MotionControl_HasDataInQueue: 1, 0, or ERROR for a queue that cannot be locked
  unfoldable pub has_data_in_queue : Controller → World p → ℤ
  unfolding has_data_from
  has_data_in_queue c w = has_data_from w c.groups

  -- START_MAX_PULSE_DEVIATION
  abbrev pub start_max_pulse_deviation : ℕ
  start_max_pulse_deviation = 30

  -- The loop over the axes of Ros_Controller_IsInMotion: `n` axes left, from `i` on.
  unfoldable pub some_axis_moves : CtrlGroup → List ℤ → List ℤ → ℕ → ℕ → Bool
  unfolding is_invalid_axis
  some_axis_moves g fb cmd zero i = false
  some_axis_moves g fb cmd (suc n) i =
      not (is_invalid_axis g i)
        && ltb start_max_pulse_deviation (abs (get_or fb i (pos 0) -ℤ get_or cmd i (pos 0)))
      || some_axis_moves g fb cmd n (i + 1)

  unfoldable pub some_group_moves : World p → List CtrlGroup → Bool
  unfolding some_axis_moves get_pulse_pos_cmd get_fb_pulse_pos
  some_group_moves w [] = false
  some_group_moves w (g ∷ gs) =
      some_axis_moves g (get_fb_pulse_pos p.fpu p.ids p.api g w).1
        (get_pulse_pos_cmd p.fpu p.ids p.api g w).1 grp_axes_num 0
      || some_group_moves w gs

  -- Ros_Controller_IsInMotion: like the queues, 1, 0 or ERROR
  unfoldable pub is_in_motion : Controller → World p → ℤ
  unfolding has_data_in_queue some_group_moves
  is_in_motion c w =
      let in_queue = has_data_in_queue c w in
      if eqb_ℤ in_queue (pos 1)
      then pos 1
      else if eqb_ℤ in_queue error_code
      then error_code
      else if some_group_moves w c.groups
      then pos 1
      else pos 0
