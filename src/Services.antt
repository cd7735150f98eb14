-- ===== src/Services.antt =====
-- The services that change the mode, the errors and the tool of the controller: the triggers of
-- src/ServiceStartTrajMode.c, src/ServiceStartPointQueueMode.c, src/ServiceStopTrajMode.c,
-- src/ServiceResetError.c and src/ServiceSelectMotionTool.c.
pub mod Answers
mod Tests
use motoros.Prelude.{
  ℕ, zero, suc, ℤ, pos, Bool, true, false, not, ◌||◌, List, [], ◌∷◌, length, leb, eqb_ℤ,
  if◌then◌else◌,
}
use motoros.Data.{CtrlGroup, Controller, MotionMode, trajectory, point_queue}
use motoros.Platform.{Platform, State, Environment}
use motoros.Controller.{
  MotionNotReadyCode, ready, not_ready_alarm, not_ready_error, not_ready_not_remote,
  not_ready_other_traj_mode_active, is_remote, is_alarm, is_error, get_not_ready_subcode, is_ready,
  has_data_in_queue, truthy, feedback_mp_incmove_done, is_motion_mode_trajectory,
  is_motion_mode_point_queue,
}
use motoros.Controller.Update.{reset_pfl_during_ros_move, reset_mp_inc_move_error}
use motoros.Motion.Stop.{with_ctl, write_output, stop_motion, stop_traj_mode}
use motoros.Motion.Mode.{start_motion_mode, wait_until, checks}

-- The texts of the answers; `text_of` is Ros_ErrorHandling_MotionNotReadyCode_ToString.
pub data StartMessage : Type 0 where
  no_text another_mode_active : StartMessage
  text_of : MotionNotReadyCode → StartMessage

pub record StartResponse : Type 0 where
  pub result_code : MotionNotReadyCode
  pub message : StartMessage

abbrev start_refused : MotionNotReadyCode → Bool → StartResponse
start_refused code other_mode =
    if is_ready code || other_mode
    then record { result_code = not_ready_other_traj_mode_active; message = another_mode_active }
    else record { result_code = code; message = text_of code }

pub data StopMessage : Type 0 where
  stopped queue_not_empty unknown_error : StopMessage

pub record StopResponse : Type 0 where
  pub success : Bool
  pub message : StopMessage

pub data ResetMessage : Type 0 where
  reset_done not_in_remote active_error active_alarm : ResetMessage

pub record ResetResponse : Type 0 where
  pub result_code : MotionNotReadyCode
  pub message : ResetMessage

-- motoros2_interfaces/SelectionResultCodes; the message is the text of the code.
pub data SelectionResultCode : Type 0 where
  selection_ok invalid_controller_state invalid_control_group invalid_selection_index :
      SelectionResultCode

pub record SelectResponse : Type 0 where
  pub result_code : SelectionResultCode
  pub success : Bool

-- MAX_VALID_TOOL_INDEX
abbrev pub max_valid_tool_index : ℕ
max_valid_tool_index = 63

-- `ctrlGroups[group_number]->tool = tool_number`
unfoldable pub set_tool : List CtrlGroup → ℕ → ℕ → List CtrlGroup
set_tool [] i tool = []
set_tool (g ∷ gs) zero tool = record g { tool = tool } ∷ gs
set_tool (g ∷ gs) (suc i) tool = g ∷ set_tool gs i tool

abbrev select_refused : SelectionResultCode → SelectResponse
select_refused code = record { result_code = code; success = false }

-- Ros_ServiceSelectMotionTool_Trigger
unfoldable pub select_motion_tool : Controller → ℕ → ℕ → SelectResponse × Controller
unfolding set_tool
select_motion_tool c group_number tool_number =
    if not (is_remote c)
    then (select_refused invalid_controller_state, c)
    else if leb (length c.groups) group_number
    then (select_refused invalid_control_group, c)
    else if leb max_valid_tool_index tool_number
    then (select_refused invalid_selection_index, c)
    else (
      record { result_code = selection_ok; success = true },
      record c { groups = set_tool c.groups group_number tool_number },
    )

module _ (p : Platform) (env : Environment p) where
  -- Ros_ServiceStartTrajMode_Trigger
  unfoldable pub start_traj_mode_trigger : State p → StartResponse × State p
  start_traj_mode_trigger s =
      let (started, s') = start_motion_mode p env trajectory s in
      if started then (record { result_code = ready; message = no_text }, s') else (
        start_refused (get_not_ready_subcode p s'.ctl s'.world) (is_motion_mode_point_queue s'.ctl),
        s',
      )

  -- Ros_ServiceStartPointQueueMode_Trigger
  unfoldable pub start_point_queue_mode_trigger : State p → StartResponse × State p
  start_point_queue_mode_trigger s =
      let (started, s') = start_motion_mode p env point_queue s in
      if started then (record { result_code = ready; message = no_text }, s') else (
        start_refused (get_not_ready_subcode p s'.ctl s'.world) (is_motion_mode_trajectory s'.ctl),
        s',
      )

  -- Ros_ServiceStopTrajMode_Trigger
  unfoldable pub stop_traj_mode_trigger : State p → StopResponse × State p
  stop_traj_mode_trigger s =
      if truthy (has_data_in_queue p s.ctl s.world)
      then (record { success = false; message = queue_not_empty }, s)
      else (let (ok, s') = stop_motion p env false s in
          if ok
          then (
            record { success = true; message = stopped },
            write_output p (stop_traj_mode p s') feedback_mp_incmove_done 1,
          )
          else (record { success = false; message = unknown_error }, s'))

  abbrev reset_answer : MotionNotReadyCode → ResetMessage → ResetResponse
  reset_answer code message = record { result_code = code; message = message }

  -- The part of Ros_ServiceResetError_Trigger that deals with an alarm.
  unfoldable pub reset_alarm : State p → ResetResponse × State p
  reset_alarm s =
      if is_alarm s.ctl
      then (let (ret, w) = p.api.reset_alarm s.world in
          let s' = record s { world = w } in
          if eqb_ℤ ret (pos 0)
          then (let t = wait_until p env (λ u. not (is_alarm u.ctl)) checks s' in
              if is_alarm t.ctl
              then (reset_answer not_ready_alarm active_alarm, t)
              else (reset_answer ready reset_done, t))
          else (reset_answer not_ready_alarm active_alarm, s'))
      else (reset_answer ready reset_done, s)

  -- Ros_ServiceResetError_Trigger
  unfoldable pub reset_error_trigger : State p → ResetResponse × State p
  unfolding reset_pfl_during_ros_move reset_mp_inc_move_error reset_alarm
  reset_error_trigger s =
      if not (is_remote s.ctl)
      then (reset_answer not_ready_not_remote not_in_remote, s)
      else (let s' = with_ctl p s (reset_mp_inc_move_error (reset_pfl_during_ros_move s.ctl)) in
          if is_error s'.ctl
          then (let (ret, w) = p.api.cancel_error s'.world in
              let t = record s' { world = w } in
              if eqb_ℤ ret (pos 0)
              then reset_alarm t
              else (reset_answer not_ready_error active_error, t))
          else reset_alarm s')
