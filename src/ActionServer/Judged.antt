-- ===== src/ActionServer/Judged.antt =====
-- Ros_ActionServer_FJT_Goal_Complete of src/ActionServer_FJT.c: how a trajectory that has ended is
-- judged.
use motoros.Prelude.{
  ℕ, ◌-◌, ℤ, pos, ◌-ℤ◌, Bool, true, false, not, ◌&&◌, Option, none, some, List, [], ◌∷◌, length,
  ◌==◌, eqb_ℤ, get_or, replicate, if◌then◌else◌,
}
use motoros.Data.{Double}
use motoros.Fpu.{Fpu}
use motoros.Trajectory.{Point, Duration}
use motoros.ActionServer.{
  succeeded, aborted, canceled, GoalEnd, complete, cancel, abort_due_to_error, Text, successful,
  parsing_failed, position_outside, time_outside, cancelled, aborted_by_alarm, Goal, Response,
  Feedback, Server, ResultCodes, result_error_code, fail_traj_cancel, fail_traj_position,
  fail_traj_time, fail_traj_alarm, fail_traj_tolerance_parse, to_nanos, is_time_ok, violators,
  is_position_ok,
}
use motoros.ActionServer.Tolerance.{Name, parse_goal_pos_tolerances, reorder_to_internal_order}

abbrev pub no_duration : Duration
no_duration = record { sec = pos 0; nanosec = 0 }

abbrev pub no_trajectory_point : Point
no_trajectory_point = record { time_from_start = no_duration; positions = []; velocities = [] }

-- `points.data[points.size - 1]`; an accepted trajectory has two points at least.
abbrev pub last_point : Goal → Point
last_point g = get_or g.points (length g.points - 1) no_trajectory_point

abbrev pub is_status_ok : ℤ → Bool
is_status_ok status = eqb_ℤ status (pos 0)

-- The names whose deviation is not 0
abbrev pub outside : List Name → List Double → List Name
outside (n ∷ ns) (v ∷ vs) = if v == 0 then outside ns vs else n ∷ outside ns vs
outside _ _ = []

-- bToleranceParseOk, positionOk and timeOk, with the joints that are out of tolerance
pub record Verdict : Type 0 where
  pub parse_ok : Bool
  pub position_ok : Bool
  pub time_ok : Bool
  pub outside_joints : List Name

module _ (fpu : Fpu) (default : Double) (codes : ResultCodes) where
  -- `total` is the time between the start and the end of the trajectory.
  unfoldable pub verdict : Goal → Feedback → ℤ → Verdict
  unfolding parse_goal_pos_tolerances reorder_to_internal_order violators is_position_ok is_time_ok
  verdict g f total =
      let n = length f.joint_names in
      let parsed = parse_goal_pos_tolerances default g.goal_tolerance f.joint_names n in
      let ordered =
        reorder_to_internal_order (last_point g).positions g.joint_names f.joint_names n
          (replicate n 0) in
      let in_time =
        is_time_ok (to_nanos (last_point g).time_from_start) total g.goal_time_tolerance in
      if is_status_ok parsed.0 && is_status_ok ordered.0
      then record {
        parse_ok = true;
        position_ok = is_position_ok fpu default n 0 ordered.1 f.actual parsed.1;
        time_ok = in_time;
        outside_joints =
            outside f.joint_names (violators fpu default n 0 ordered.1 f.actual parsed.1);
      }
      else record { parse_ok = false; position_ok = true; time_ok = in_time; outside_joints = [] }

  abbrev pub violated : ℕ → Text → Response
  violated code text = record {
    status = aborted;
    error_code = result_error_code codes.goal_tolerance_violated code;
    error_string = text;
  }

  -- The order of the tests: the parsing, the positions, the time.
  unfoldable pub completed_response : Verdict → Response
  completed_response v =
      if v.parse_ok && (v.position_ok && v.time_ok)
      then record {
        status = succeeded;
        error_code = codes.successful_code;
        error_string = successful;
      }
      else if not v.parse_ok
      then violated fail_traj_tolerance_parse parsing_failed
      else if not v.position_ok
      then violated fail_traj_position (position_outside v.outside_joints)
      else violated fail_traj_time time_outside

  -- The feedback message is destroyed.
  abbrev pub no_feedback : Feedback
  no_feedback = record { joint_names = []; actual = []; desired = []; error = [] }

  abbrev pub finish : Response → Server → Server
  finish r v = record v {
    response = r;
    goal_state = r.status;
    message_ready = true;
    feedback = no_feedback;
  }

  abbrev pub judged : Option Goal → ℤ → Server → Response
  judged none now v = v.response
  judged (some g) now v = completed_response (verdict g v.feedback (now -ℤ v.start_time))

  abbrev pub cancel_response : Response
  cancel_response = record {
    status = canceled;
    error_code = result_error_code codes.goal_tolerance_violated fail_traj_cancel;
    error_string = cancelled;
  }

  abbrev pub abort_response : Response
  abort_response = record {
    status = aborted;
    error_code = result_error_code codes.invalid_goal fail_traj_alarm;
    error_string = aborted_by_alarm;
  }

  -- Ros_ActionServer_FJT_Goal_Complete at the time `now`; a complete goal is the active one.
  unfoldable pub goal_complete : GoalEnd → ℤ → Server → Server
  unfolding verdict completed_response
  goal_complete complete now v = finish (judged v.active now v) v
  goal_complete cancel now v = finish cancel_response v
  goal_complete abort_due_to_error now v = finish abort_response v
