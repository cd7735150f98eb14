-- ===== src/Motion/Stop.antt =====
-- Stopping motion and leaving a motion mode: Ros_MotionControl_StopMotion,
-- Ros_MotionControl_StopTrajMode and Ros_MotionControl_ValidateMotionModeIsOk of
-- src/MotionControl.c.
use motoros.Prelude.{ℕ, zero, suc, Bool, true, false, not, ◌||◌, List, [], ◌∷◌, if◌then◌else◌}
use motoros.Data.{CtrlGroup, Controller, inactive}
use motoros.Platform.{Platform, State, Environment}
use motoros.Controller.{feedback_waiting_mp_incmove, is_motion_mode_point_queue}
use motoros.Controller.Update.{clear_q_all}

-- Ros_MotionControl_HasDataToProcess
unfoldable pub has_data_to_process : List CtrlGroup → Bool
has_data_to_process [] = false
has_data_to_process (g ∷ gs) = g.has_data_to_process || has_data_to_process gs

abbrev pub motion_stop_timeout : ℕ
motion_stop_timeout = 20

module _ (p : Platform) where
  abbrev pub with_ctl : State p → Controller → State p
  with_ctl s c = record s { ctl = c }

  -- Ros_Controller_SetIOState and the other writes of one output, whose result is only logged
  abbrev pub write_output : State p → ℕ → ℕ → State p
  write_output s address value = record s {
    world = (p.api.write_io s.world ((address, value) ∷ [])).1;
  }

  abbrev pub hold : State p → Bool → State p
  hold s on = record s { world = p.api.hold s.world on }

  unfoldable pub stop_traj_mode : State p → State p
  stop_traj_mode s =
      write_output
        (with_ctl s
          (record s.ctl { all_groups_init_complete = false; active_motion_mode = inactive }))
        feedback_waiting_mp_incmove 0

  -- Called by the executor with the status that was published last.
  unfoldable pub validate_motion_mode_is_ok : State p → State p
  unfolding stop_traj_mode
  validate_motion_mode_is_ok s =
      if not s.ctl.status.motion_possible
      then (if is_motion_mode_point_queue s.ctl then stop_traj_mode s else s)
      else s

  module _ (env : Environment p) where
    -- The loop that waits until no group has data, a millisecond each time: whether it has come to
    -- that, and the state.
    unfoldable pub wait_stopped : ℕ → State p → Bool × State p
    wait_stopped zero s = (false, s)
    wait_stopped (suc n) s =
        let rest = wait_stopped n (env 1 s) in
        if has_data_to_process s.ctl.groups then rest else (true, s)

    abbrev resume : Bool → State p → State p
    resume keep_job_running s =
        if keep_job_running then record s { world = (p.api.start_job s.world []).1 } else s

    -- Ros_MotionControl_ClearQ_All returns TRUE, so the result is that of the wait.
    unfoldable pub stop_motion : Bool → State p → Bool × State p
    stop_motion keep_job_running s =
        let raised = hold (with_ctl s (record s.ctl { stop_motion = true })) true in
        let (stopped, s') = wait_stopped motion_stop_timeout raised in
        let cleared = clear_q_all p s'.ctl s'.world in
        let released = hold (with_ctl s' (record cleared { stop_motion = false })) false in
        (stopped, resume keep_job_running released)
