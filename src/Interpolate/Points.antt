-- ===== src/Interpolate/Points.antt =====
-- What Ros_MotionControl_AddToIncQueueProcess of src/MotionControl.c does to the points of a group.
use motoros.Prelude.{
  ℕ, zero, suc, ◌+◌, pos, Bool, false, Option, none, some, List, [], ltb, leb, ◌==◌, abs, get_or,
  set, if◌then◌else◌,
}
use motoros.Data.{Double, JointMotionData, CtrlGroup, max_points, no_coord}
use motoros.Platform.{Platform, State}
use motoros.CtrlGroup.{at}
use motoros.Controller.{is_motion_ready}
use motoros.Motion.Stop.{with_ctl}
use motoros.Trajectory.Init.{no_point, no_points}
use motoros.Interpolate.{
  Clock, start_clock, tick, Segment, coefficients_from, seconds_between, next_point,
}

-- A group that does not exist
abbrev pub no_group : CtrlGroup
no_group = record {
  group_no = 0;
  num_axes = 0;
  group_id = 0;
  pulse_to_rad = [];
  pulse_to_meter = [];
  corrections = [];
  max_inc = [];
  max_speed = [];
  tool = 0;
  inc_q = record { cnt = 0; idx = 0; entries = [] };
  q_time = 0;
  trajectory_iterator = none;
  prev_trajectory_iterator = none;
  trajectory_to_process = [];
  has_data_to_process = false;
  time_leftover_ms = 0;
  prev_pulse_pos = [];
  axis_type = [];
  joint_names = [];
  is_baxis_slave = false;
  base_track_group_id = none;
  base_track_group_index = none;
  base_track_info = record { motion_type = []; offset = no_coord };
  calibration = no_coord;
  speed_feedback = none;
}

-- `bzero(trajectoryToProcess)` and `hasDataToProcess = FALSE`
abbrev pub drop_points : CtrlGroup → CtrlGroup
drop_points g = record g { trajectory_to_process = no_points; has_data_to_process = false }

-- `timeInc_ms`, `calculationTime_ms` and `iterationCounter`, with the pointers curTrajData and
-- endTrajData as indices
pub record Locals : Type 0 where
  pub cur : ℕ
  pub fin : ℕ
  pub calculation_time : ℕ
  pub time_inc : ℕ
  pub counter : ℕ

-- A write behind the array is not followed into the other fields of the group.
abbrev pub put_point : CtrlGroup → ℕ → JointMotionData → CtrlGroup
put_point g i d = record g { trajectory_to_process = set g.trajectory_to_process i d }

abbrev pub first_locals : ℕ → ℕ → ℕ → ℕ → CtrlGroup → Locals
first_locals period prev it start_time g =
    let c = start_clock period start_time g.time_leftover_ms in
    record {
      cur = prev;
      fin = it;
      calculation_time = c.calculation_time;
      time_inc = c.time_inc;
      counter = 0;
    }

abbrev pub next_index : Option ℕ → Option ℕ
next_index none = none
next_index (some k) = some (suc k)

-- In a trajectory the iterators move on, unless the iterator is at the end of the array.
abbrev pub move_iterators : Option ℕ → CtrlGroup → CtrlGroup
move_iterators none g = g
move_iterators (some it) g = if it == max_points then drop_points g else record g {
  prev_trajectory_iterator = next_index g.prev_trajectory_iterator;
  trajectory_iterator = some (suc it);
}

module _ (p : Platform) where
  abbrev pub group : State p → ℕ → CtrlGroup
  group s gi = get_or s.ctl.groups gi no_group

  abbrev pub with_group : State p → ℕ → CtrlGroup → State p
  with_group s gi g = with_ctl p s (record s.ctl { groups = set s.ctl.groups gi g })

  abbrev pub is_ready_now : State p → Bool
  is_ready_now s = is_motion_ready p s.ctl s.world

  -- `endTrajData->pos[4] += -endTrajData->pos[1] + endTrajData->pos[2]`, and its velocity
  abbrev pub compensate_fourth : List Double → List Double
  compensate_fourth xs = set xs 4 (p.fpu.add (at xs 4) (p.fpu.add (p.fpu.neg (at xs 1)) (at xs 2)))

-- `beyond` is what the memory behind the array of points, one past its end, reads as.
module _ (beyond : CtrlGroup → JointMotionData) where
  abbrev pub point : CtrlGroup → ℕ → JointMotionData
  point g i = if ltb i max_points then get_or g.trajectory_to_process i no_point else beyond g

  abbrev pub clock_of : Locals → CtrlGroup → Clock
  clock_of l g = record {
    time = (point g l.cur).time;
    calculation_time = l.calculation_time;
    time_inc = l.time_inc;
    leftover = g.time_leftover_ms;
  }

  abbrev pub ticked : ℕ → Locals → CtrlGroup → Clock
  ticked period l g = tick period (point g l.fin).time (clock_of l g)

  abbrev pub next_locals : ℕ → Locals → CtrlGroup → Locals
  next_locals period l g = record l {
    calculation_time = (ticked period l g).calculation_time;
    time_inc = (ticked period l g).time_inc;
    counter = (if leb 15 (l.counter + 1) then 0 else l.counter + 1);
  }

  -- In the point queue the point that was reached is kept, and its place is free again.
  abbrev pub free_point : ℕ → Option ℕ → CtrlGroup → CtrlGroup
  free_point prev none g = g
  free_point prev (some it) g = put_point (put_point g prev (point g it)) it no_point

module _ (p : Platform) (beyond : CtrlGroup → JointMotionData) where
  -- The current point and the time left over move on.
  unfoldable pub advance : ℕ → Segment → Locals → CtrlGroup → CtrlGroup
  unfolding next_point
  advance period seg l g =
      let c = ticked beyond period l g in
      record (put_point g l.cur
        (next_point p.fpu seg (point beyond g l.fin) c (point beyond g l.cur))) {
          time_leftover_ms = c.leftover;
        }

  -- The velocity check: `abs` takes an int, and its `continue` goes on with the next axis.
  unfoldable pub check_speeds : ℕ → ℕ → ℕ → CtrlGroup → CtrlGroup
  check_speeds zero i it g = g
  check_speeds (suc n) i it g = check_speeds n (suc i) it (
      if p.fpu.lt (at g.max_speed i)
        (p.fpu.of_int (pos (abs (p.fpu.to_int (at (point beyond g it).vel i)))))
      then drop_points g
      else g)

  unfoldable pub compensate_end : ℕ → CtrlGroup → CtrlGroup
  compensate_end it g =
      let e = point beyond g it in
      if g.is_baxis_slave
      then put_point g it
          (record e { pos = compensate_fourth p e.pos; vel = compensate_fourth p e.vel })
      else g

  unfoldable pub segment_of : JointMotionData → ℕ → CtrlGroup → Segment
  unfolding coefficients_from
  segment_of start it g =
      let e = point beyond g it in
      record {
        start = start;
        tool = g.tool;
        coefficients =
            coefficients_from p.fpu g.num_axes 0 (seconds_between p.fpu e.time start.time) start e;
      }
