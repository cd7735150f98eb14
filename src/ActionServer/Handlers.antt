-- ===== src/ActionServer/Handlers.antt =====
-- The handlers of src/ActionServer_FJT.c: a goal is received or cancelled, feedback and the result
-- are sent, the progress is tracked.
use motoros.Prelude.{
  ℕ, ℤ, Bool, true, false, not, ◌&&◌, Option, none, some, List, [], ◌∷◌, ◌++◌, length, leb, take,
  replicate, if◌then◌else◌,
}
use motoros.MotoPlus.{GroupMove}
use motoros.Data.{Double, CtrlGroup, Controller, max_points}
use motoros.Fpu.{Fpu}
use motoros.Platform.{Platform, World, State, Environment}
use motoros.CtrlGroup.{to_ros_pos, no_doubles}
use motoros.Controller.{
  MotionNotReadyCode, is_ready, is_motion_ready, get_not_ready_subcode, is_eco_mode,
  is_any_fault_active, is_in_motion, is_motion_mode_trajectory, truthy,
}
use motoros.Motion.Stop.{with_ctl, stop_motion, has_data_to_process}
use motoros.Services.{start_traj_mode_trigger}
use motoros.Trajectory.{InitStatus, init_ok}
use motoros.Trajectory.Init.{init_trajectory, is_ok}
use motoros.ActionServer.{
  GoalState, aborted, complete, cancel, abort_due_to_error, Text, too_many_points, empty_text,
  must_call_service, not_ready_text, init_text, Goal, Response, Feedback, Server, ResultCodes,
  result_error_code, init_code, init_traj_too_big, init_traj_wrong_mode,
}
use motoros.ActionServer.Tolerance.{Name}
use motoros.ActionServer.Judged.{goal_complete}

-- What the server uses of the ROS client library and of the position monitor.
pub record Client (W : Type 0) : Type 0 where
  pub codes : ResultCodes
  -- DEFAULT_FJT_GOAL_POSITION_TOLERANCE
  pub default_tolerance : Double
  -- rmw_uros_epoch_nanos
  pub epoch_nanos : W → ℤ
  -- g_messages_PositionMonitor.jointStateAllGroups
  pub joint_names : W → List Name
  pub joint_positions : W → List Double
  -- rclc_action_publish_feedback
  pub publish_feedback : W → Goal → Feedback → W
  -- rclc_action_send_result: RCL_RET_OK, and what it has changed
  pub send_result : W → Goal → GoalState → Response → Bool × W

-- Why a goal is refused; what is tested first comes first.
pub data Refusal : Type 0 where
  too_big wrong_mode : Refusal
  not_ready : MotionNotReadyCode → Refusal
  init_failed : InitStatus → Refusal

module _ (p : Platform) (client : Client (World p)) where
  open client use {codes, default_tolerance, epoch_nanos, joint_names, joint_positions}

  abbrev pub refusal_code : Refusal → ℕ
  refusal_code too_big = init_traj_too_big
  refusal_code wrong_mode = init_traj_wrong_mode
  refusal_code (not_ready c) = codes.ready_code c
  refusal_code (init_failed i) = init_code i

  abbrev pub refusal_text : Refusal → Text
  refusal_text too_big = too_many_points
  refusal_text wrong_mode = must_call_service
  refusal_text (not_ready c) = not_ready_text c
  refusal_text (init_failed i) = init_text i

  abbrev pub refusal_response : Refusal → Response
  refusal_response r = record {
    status = aborted;
    error_code = result_error_code codes.invalid_goal (refusal_code r);
    error_string = refusal_text r;
  }

  abbrev pub refuse : Goal → Refusal → Server → Server
  refuse g r v = record v { rejected = some g; response = refusal_response r; message_ready = true }

  -- Ros_ActionServer_FJT_ResetProgressTracker, on a feedback message that has just been made
  abbrev pub fresh_feedback : World p → Feedback
  fresh_feedback w =
      let positions = joint_positions w in
      record {
        joint_names = joint_names w;
        actual = positions;
        desired = positions;
        error = replicate (length positions) 0;
      }

  abbrev pub accept : Goal → World p → Server → Server
  accept g w v = record v {
    active = some g;
    feedback = fresh_feedback w;
    start_time = epoch_nanos w;
  }

  -- How the goal fared, by the tests in the order of the second half.
  unfoldable pub judge_goal : Bool → Bool → Bool → MotionNotReadyCode → InitStatus → Option Refusal
  judge_goal size_ok motion_ready mode_ok code status =
      if not size_ok
      then some too_big
      else if not motion_ready
      then some (not_ready code)
      else if not mode_ok
      then some wrong_mode
      else if not (is_ok status)
      then some (init_failed status)
      else none

  abbrev pub settle_goal : Goal → Option Refusal → World p → Server → Server
  settle_goal g none w v = accept g w v
  settle_goal g (some r) w v = refuse g r v

  module _ (env : Environment p) where
    abbrev pub is_ready_in : State p → Bool
    is_ready_in s = is_motion_ready p s.ctl s.world

    -- The mode is started again if energy saving is what keeps the robot from moving: bMotionReady,
    -- and the state.
    unfoldable pub wake_up : Bool → State p → Bool × State p
    wake_up wanted s =
        let (answer, started) = start_traj_mode_trigger p env s in
        if wanted && (not (is_ready_in s) && is_eco_mode s.ctl)
        then (is_ready answer.result_code && is_ready_in started, started)
        else (is_ready_in s, s)

    abbrev pub init_if : Bool → Goal → State p → InitStatus × Controller
    init_if true g s = init_trajectory p g.joint_names g.points s.ctl s.world
    init_if false g s = (init_ok, s.ctl)

    -- Ros_ActionServer_FJT_Goal_Received, which always answers that the goal is accepted.
    unfoldable pub goal_received : Goal → Server × State p → Server × State p
    unfolding judge_goal wake_up
    goal_received g (v, s) =
        let mode_ok = is_motion_mode_trajectory s.ctl in
        let size_ok = leb (length g.points) max_points in
        let (motion_ready, awake) = wake_up (mode_ok && size_ok) s in
        let code = get_not_ready_subcode p awake.ctl awake.world in
        let (status, ctl) = init_if (size_ok && (motion_ready && mode_ok)) g awake in
        (
          settle_goal g (judge_goal size_ok motion_ready mode_ok code status) awake.world v,
          with_ctl p awake ctl,
        )

    -- Ros_ActionServer_FJT_Goal_Cancel, which always answers true.
    unfoldable pub goal_cancel : Server × State p → Server × State p
    unfolding goal_complete
    goal_cancel (v, s) =
        let stopped = (stop_motion p env true s).1 in
        (goal_complete p.fpu default_tolerance codes cancel (epoch_nanos stopped.world) v, stopped)

    -- The end of Ros_ActionServer_FJT_ProcessFeedback: whether the trajectory has ended.
    unfoldable pub check_progress : Server × State p → Server × State p
    unfolding goal_complete
    check_progress (v, s) =
        if is_any_fault_active s.ctl
        then (let stopped = (stop_motion p env false s).1 in
            (
              goal_complete p.fpu default_tolerance codes abort_due_to_error
                  (epoch_nanos stopped.world) v,
              stopped,
            ))
        else if not (has_data_to_process s.ctl.groups)
            && not (truthy (is_in_motion p s.ctl s.world))
        then (goal_complete p.fpu default_tolerance codes complete (epoch_nanos s.world) v, s)
        else (v, s)

  unfoldable pub subtract_all : Fpu → List Double → List Double → List Double
  subtract_all fpu (x ∷ xs) (y ∷ ys) = fpu.sub x y ∷ subtract_all fpu xs ys
  subtract_all fpu _ _ = []

  abbrev pub measured : World p → Feedback → Feedback
  measured w f = record f {
    actual = joint_positions w;
    error = subtract_all p.fpu f.desired (joint_positions w);
  }

  unfoldable pub feedback_of_active :
      Environment p → Option Goal → Server × State p → Server × State p
  unfolding check_progress subtract_all
  feedback_of_active env none (v, s) = (v, s)
  feedback_of_active env (some g) (v, s) =
      let f = measured s.world v.feedback in
      if v.message_ready
      then (v, s)
      else check_progress env
          (record v { feedback = f }, record s { world = client.publish_feedback s.world g f })

  -- Ros_ActionServer_FJT_ProcessFeedback
  unfoldable pub process_feedback : Environment p → Server × State p → Server × State p
  unfolding feedback_of_active
  process_feedback env (v, s) = feedback_of_active env v.active (v, s)

  -- The position of every axis of the groups that a cycle moves by.
  unfoldable pub moved_by : List CtrlGroup → List GroupMove → List Double
  moved_by (g ∷ gs) (m ∷ ms) =
      take g.num_axes (to_ros_pos p.fpu p.ids g m.pos no_doubles) ++ moved_by gs ms
  moved_by _ _ = []

  unfoldable pub add_each : List Double → List Double → List Double → List Double
  add_each (a ∷ actual) (r ∷ rads) (d ∷ desired) = p.fpu.add a r ∷ add_each actual rads desired
  add_each _ _ desired = desired

  abbrev pub track : Option Goal → List CtrlGroup → List GroupMove → Server → Server
  track none groups moves v = v
  track (some g) groups moves v =
      let f = v.feedback in
      record v {
        feedback = record f { desired = add_each f.actual (moved_by groups moves) f.desired };
      }

  -- Ros_ActionServer_FJT_UpdateProgressTracker
  unfoldable pub update_progress_tracker : List CtrlGroup → List GroupMove → Server → Server
  unfolding moved_by add_each
  update_progress_tracker groups moves v = track v.active groups moves v

  abbrev pub after_sending : Bool × World p → Server → Server → State p → Server × State p
  after_sending (true, w) done v s = (done, record s { world = w })
  after_sending (false, w) done v s = (v, record s { world = w })

  abbrev pub without_text : Response → Response
  without_text r = record r { error_string = empty_text }

  abbrev pub send_pending : Option Goal → Option Goal → Server → State p → Server × State p
  send_pending (some g) r v s =
      after_sending (client.send_result s.world g v.goal_state v.response)
        (record v { active = none; message_ready = false; response = without_text v.response }) v s
  send_pending none (some g) v s =
      after_sending (client.send_result s.world g aborted v.response)
        (record v { rejected = none; message_ready = false; response = without_text v.response }) v
        s
  send_pending none none v s = (v, s)

  -- Ros_ActionServer_FJT_ProcessResult
  unfoldable pub process_result : Server × State p → Server × State p
  process_result (v, s) = if v.message_ready then send_pending v.active v.rejected v s else (v, s)
