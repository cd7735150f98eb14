-- ===== src/Controller/Update.antt =====
-- Clearing the queues (src/MotionControl.c), the active alarms, and the cyclic update of the status
-- of the controller (src/ControllerStatusIO.c).
use motoros.Prelude.{
  ℕ, zero, suc, ◌+◌, ℤ, pos, negsuc, Bool, true, false, not, ◌&&◌, ◌||◌, List, [], ◌∷◌, ◌++◌, ltb,
  leb, ◌==◌, eqb_ℤ, get_or, take, replicate, if◌then◌else◌,
}
use motoros.Data.{CtrlGroup, Controller, RobotStatus}
use motoros.Platform.{Platform, World}
use motoros.Queue.{clear}
use motoros.Controller.{
  alarm_major, alarm_minor, alarm_system, alarm_user, waiting_ros, pfl_stop, pfl_escape,
  pfl_avoiding, has_pfl, io_status_max, io_status_addr, is_play, is_servo_on, is_estop,
  is_waiting_ros, is_pfl_active, is_any_fault_active, truthy, is_motion_ready, is_in_motion,
}

unfoldable pub reset_pfl_during_ros_move : Controller → Controller
reset_pfl_during_ros_move c = record c { pfl_during_ros_move = false }

unfoldable pub reset_mp_inc_move_error : Controller → Controller
reset_mp_inc_move_error c = record c { mp_inc_move_error = false }

-- What Ros_Controller_GetActiveAlarmCodes gives: the codes, or -1 or -2.
pub data ActiveAlarms : Type 0 where
  codes : List ℕ → ActiveAlarms
  failed : ℤ → ActiveAlarms

-- The four alarm signals are off in the values that were read.
abbrev pub alarms_off : (ℕ → ℕ) → Bool
alarms_off io =
    (io alarm_major == 0) && (io alarm_minor == 0) && (io alarm_system == 0) && (io alarm_user == 0)

abbrev pub write_signal : Controller → ℕ → ℕ → Controller
write_signal c i v = record c { io_status = λ j. if i == j then v else c.io_status j }

module _ (p : Platform) where
  -- What Ros_MotionControl_ClearQ_All does to one group.
  unfoldable pub clear_group : World p → CtrlGroup → CtrlGroup
  unfolding clear
  clear_group w g =
      let stopped : CtrlGroup = record g { has_data_to_process = false } in
      if p.api.sem_take w g.group_no then record stopped { inc_q = clear g.inc_q } else stopped

  unfoldable pub clear_groups : World p → List CtrlGroup → List CtrlGroup
  unfolding clear_group
  clear_groups w [] = []
  clear_groups w (g ∷ gs) = clear_group w g ∷ clear_groups w gs

  -- Ros_MotionControl_ClearQ_All always returns TRUE, also when a queue could not be locked.
  unfoldable pub clear_q_all : Controller → World p → Controller
  unfolding clear_groups
  clear_q_all c w = record c { groups = clear_groups w c.groups }

  unfoldable pub get_alarm_code : World p → ℤ
  get_alarm_code w =
      let (ret, d) = p.api.get_alarm_code w in
      if eqb_ℤ ret (pos 0)
      then (if ltb 0 d.alarm_num
          then pos (get_or d.alarm_nos 0 0)
          else if ltb 0 d.error_no
          then pos d.error_no
          else pos 0)
      else negsuc 0

  -- Ros_Controller_GetActiveAlarmCodes
  unfoldable pub get_active_alarm_codes : World p → ActiveAlarms
  get_active_alarm_codes w =
      let (ret, d) = p.api.get_alarm_code w in
      if not (eqb_ℤ ret (pos 0))
      then failed (negsuc 0)
      else if ltb p.max_alarm_count d.alarm_num
      then failed (negsuc 1)
      else codes
          (take d.alarm_num d.alarm_nos ++ (if ltb 0 d.error_no then d.error_no ∷ [] else []))

  -- The case of the alarm signals.
  unfoldable pub alarm_changed : (ℕ → ℕ) → Controller → World p → Controller
  unfolding clear_q_all reset_pfl_during_ros_move reset_mp_inc_move_error
  alarm_changed io c w =
      if alarms_off io
      then (let quiet : Controller = record c { alarm_code = pos 0 } in
          if c.prev_alarm_state
          then record (reset_mp_inc_move_error (reset_pfl_during_ros_move quiet)) {
            prev_alarm_state = false;
          }
          else quiet)
      else record (clear_q_all (record c { alarm_code = get_alarm_code w }) w) {
        prev_alarm_state = true;
      }

  -- The case of the signal that the job waits for ROS.
  unfoldable pub waiting_changed : (ℕ → ℕ) → Controller → World p → Controller
  unfolding clear_q_all
  waiting_changed io c w = if io waiting_ros == 0 then clear_q_all c w else c

  -- The case of the PFL signals.
  unfoldable pub pfl_changed : Controller → World p → Controller
  unfolding clear_q_all
  pfl_changed c w =
      if c.pfl_enabled && is_waiting_ros c && is_pfl_active c
      then clear_q_all (record c { pfl_during_ros_move = true }) w
      else c

  -- The `switch (i)` on a signal that has changed.
  unfoldable pub react : (ℕ → ℕ) → ℕ → Controller → World p → Controller
  react io i c w =
      if leb i alarm_user
      then alarm_changed io c w
      else if i == waiting_ros
      then waiting_changed io c w
      else if has_pfl c.model && ((i == pfl_stop) || (i == pfl_escape) || (i == pfl_avoiding))
      then pfl_changed c w
      else c

  -- One pass of the loop over the signals.
  unfoldable pub update_signal : (ℕ → ℕ) → ℕ → Controller → World p → Controller
  update_signal io i c w =
      if c.io_status i == io i then c else react io i (write_signal c i (io i)) w

  -- `n` signals left, from `i` on
  unfoldable pub update_signals : (ℕ → ℕ) → ℕ → ℕ → Controller → World p → Controller
  update_signals io zero i c w = c
  update_signals io (suc n) i c w = update_signals io n (i + 1) (update_signal io i c w) w

  abbrev error_codes_of : Bool → ActiveAlarms → List ℕ
  error_codes_of true alarms = []
  error_codes_of false (codes cs) = cs
  error_codes_of false (failed z) = []

  -- The message that is published; its time stamp and its sending are left out.
  unfoldable pub robot_status : Controller → World p → RobotStatus
  robot_status c w = record {
    drives_powered = is_servo_on c;
    e_stopped = is_estop c;
    in_motion = truthy (is_in_motion p c w);
    mode_auto = is_play c;
    motion_possible = is_motion_ready p c w;
    in_error = is_any_fault_active c;
    error_codes = error_codes_of (is_motion_ready p c w) (get_active_alarm_codes w);
  }

  -- The values that Ros_Controller_StatusRead gives, and whether it succeeds.
  abbrev pub status_read : Controller → World p → Bool × (ℕ → ℕ)
  status_read c w =
      let (ret, values) =
        p.api.read_io w (io_status_addr c.model) (replicate (io_status_max c.model) 0) in
      (eqb_ℤ ret (pos 0), λ i. get_or values i 0)

  -- The message is filled in field by field after the loop.
  abbrev pub publish : Controller → World p → Controller
  publish c w = record c { status = robot_status c w }

  -- Ros_Controller_IoStatusUpdate
  unfoldable pub io_status_update : Controller → World p → Bool × Controller
  io_status_update c w =
      let (ok, io) = status_read c w in
      if ok then (true, publish (update_signals io (io_status_max c.model) 0 c w) w) else (false, c)
