-- ===== src/Trajectory/Queued.antt =====
-- The later points of a point queue: Ros_MotionControl_ProcessQueuedTrajectoryPoint of
-- src/MotionControl.c, and the trigger of src/ServiceQueueTrajPoint.c.
use motoros.Prelude.{
  ℕ, zero, suc, ◌+◌, Bool, true, false, not, ◌||◌, Option, none, some, List, [], ◌∷◌, map, length,
  ◌==◌, get_or, if◌then◌else◌,
}
use motoros.Data.{JointMotionData, CtrlGroup, Controller}
use motoros.Fpu.{Fpu}
use motoros.Platform.{Platform, World}
use motoros.Controller.{is_motion_mode_trajectory, is_motion_mode_point_queue}
use motoros.Trajectory.{Point, InitStatus, convert}
use motoros.Trajectory.Init.{
  no_point, is_ok, find_joint, is_found, target, points_of, set_points, init_point_queue,
}

-- motoros2_interfaces/QueueResultEnum; the message is the text of the code.
pub data QueueResult : Type 0 where
  queue_success wrong_mode init_failure busy invalid_joint_list unable_to_process_point :
      QueueResult

abbrev pub is_success : QueueResult → Bool
is_success queue_success = true
is_success _ = false

-- `trajectoryIterator != NULL && trajectoryIterator->valid`; behind the last point there is none.
abbrev pub is_busy_at : List JointMotionData → Option ℕ → Bool
is_busy_at ds none = false
is_busy_at ds (some i) = (get_or ds i no_point).valid

unfoldable pub some_busy : List CtrlGroup → Bool
some_busy [] = false
some_busy (g ∷ gs) = is_busy_at g.trajectory_to_process g.trajectory_iterator || some_busy gs

-- The points of a group from its iterator on, and the points with these replaced. Without an
-- iterator nothing is stored: the source does not test for that.
abbrev pub points_from : ℕ → List JointMotionData → List JointMotionData
points_from zero ds = ds
points_from (suc i) [] = []
points_from (suc i) (d ∷ ds) = points_from i ds

abbrev pub replace_from : ℕ → List JointMotionData → List JointMotionData → List JointMotionData
replace_from zero ds es = es
replace_from (suc i) [] es = []
replace_from (suc i) (d ∷ ds) es = d ∷ replace_from i ds es

abbrev pub iterator_of : List CtrlGroup → ℕ → Option ℕ
iterator_of [] i = none
iterator_of (g ∷ gs) zero = g.trajectory_iterator
iterator_of (g ∷ gs) (suc i) = iterator_of gs i

-- One joint of a point is converted into the points of a group: the status and the points.
unfoldable pub convert_next :
    Fpu → Bool → ℕ → ℕ → Point → Option ℕ → List JointMotionData → InitStatus × List JointMotionData
convert_next fpu whole joint axis pt none ds =
    ((convert fpu whole joint axis 0 0 (pt ∷ []) []).0, ds)
convert_next fpu whole joint axis pt (some i) ds =
    let converted = convert fpu whole joint axis 0 0 (pt ∷ []) (points_from i ds) in
    (converted.0, replace_from i ds converted.1)

-- `trajectoryIterator->valid = TRUE`; the model leaves a group without an iterator alone.
abbrev pub set_valid : List JointMotionData → ℕ → List JointMotionData
set_valid [] i = []
set_valid (d ∷ ds) zero = record d { valid = true } ∷ ds
set_valid (d ∷ ds) (suc i) = d ∷ set_valid ds i

abbrev pub validate_next : CtrlGroup → CtrlGroup
validate_next g = record g {
  trajectory_to_process = (elim g.trajectory_iterator [
    | none ↦ g.trajectory_to_process
    | some i ↦ set_valid g.trajectory_to_process i
  ]);
}

module _ (p : Platform) where
  -- The loop over the joints from the `joint`-th on.
  unfoldable pub queue_joints :
      Bool → Point → List (List ℕ) → ℕ → List CtrlGroup → QueueResult × List CtrlGroup
  queue_joints whole pt [] joint groups = (queue_success, groups)
  queue_joints whole pt (name ∷ names) joint groups =
      let found = find_joint name groups 0 in
      let (group, axis) = target found in
      let converted =
        convert_next p.fpu whole joint axis pt (iterator_of groups group)
          (points_of groups group) in
      let stored = set_points groups group converted.1 in
      let rest = queue_joints whole pt names (joint + 1) stored in
      if not (is_found found)
      then (invalid_joint_list, groups)
      else if is_ok converted.0
      then rest
      else (unable_to_process_point, stored)

  -- Ros_MotionControl_ProcessQueuedTrajectoryPoint
  unfoldable pub process_queued :
      List (List ℕ) → Point → Controller → World p → QueueResult × Controller
  unfolding some_busy queue_joints
  process_queued names pt c w =
      let (status, started) = init_point_queue p names pt c w in
      let (result, groups) = queue_joints (is_motion_mode_trajectory c) pt names 0 c.groups in
      if c.must_initialize_point_queue
      then (if is_ok status then (queue_success, started) else (init_failure, started))
      else if not (c.total_axes_count == length names)
      then (invalid_joint_list, c)
      else if some_busy c.groups
      then (busy, c)
      else if is_success result
      then (queue_success, record c { groups = map validate_next groups })
      else (result, record c { groups = groups })

  -- Ros_ServiceQueueTrajPoint_Trigger
  unfoldable pub queue_traj_point_trigger :
      List (List ℕ) → Point → Controller → World p → QueueResult × Controller
  queue_traj_point_trigger names pt c w =
      if not (is_motion_mode_point_queue c) then (wrong_mode, c) else process_queued names pt c w
