-- ===== src/Trajectory/Init.antt =====
-- The start of a trajectory: Ros_MotionControl_Init, .._InitTrajectory and .._InitPointQueue of
-- src/MotionControl.c.
use motoros.Prelude.{
  ℕ, zero, suc, ◌+◌, ℤ, pos, ◌-ℤ◌, Bool, true, false, not, ◌&&◌, ◌||◌, Option, none, some, List, [],
  ◌∷◌, map, length, ltb, ◌==◌, abs, get_or, set, replicate, if◌then◌else◌,
}
use motoros.Data.{Double, JointMotionData, CtrlGroup, Controller, max_points, grp_axes_num}
use motoros.Platform.{Platform, World}
use motoros.CtrlGroup.{convert_ros_units, get_pulse_pos_cmd, no_doubles, at}
use motoros.Controller.{strncmp_eq, is_motion_mode_trajectory, start_max_pulse_deviation}
use motoros.Motion.Stop.{has_data_to_process}
use motoros.Trajectory.{
  Point, InitStatus, init_ok, init_too_small, init_already_in_motion, init_invalid_starting_pos,
  init_invalid_velocity, init_invalid_jointname, init_incomplete_jointlist,
  init_wrong_number_of_positions, init_wrong_number_of_velocities, init_duplicate_joint_name,
  convert,
}

-- `strcmp(a, b) == 0`
unfoldable pub strcmp_eq : List ℕ → List ℕ → Bool
strcmp_eq [] [] = true
strcmp_eq [] (y ∷ b) = false
strcmp_eq (x ∷ a) [] = false
strcmp_eq (x ∷ a) (y ∷ b) = (x == y) && strcmp_eq a b

-- MAX_JOINT_NAME_LENGTH
abbrev pub max_joint_name_length : ℕ
max_joint_name_length = 32

-- A cleared point
abbrev pub no_point : JointMotionData
no_point = record { valid = false; time = 0; pos = no_doubles; vel = no_doubles }

abbrev pub no_points : List JointMotionData
no_points = replicate max_points no_point

abbrev pub clear_points : CtrlGroup → CtrlGroup
clear_points g = record g { trajectory_iterator = none; trajectory_to_process = no_points }

-- After a start that failed in one group, every group is cleared.
abbrev pub abort_group : CtrlGroup → CtrlGroup
abort_group g = record (clear_points g) { has_data_to_process = false }

unfoldable pub check_sizes : ℕ → List Point → InitStatus
check_sizes total [] = init_ok
check_sizes total (pt ∷ pts) =
    let rest = check_sizes total pts in
    if not (length pt.positions == total)
    then init_wrong_number_of_positions
    else if not (length pt.velocities == total)
    then init_wrong_number_of_velocities
    else rest

unfoldable pub is_duplicated : List ℕ → List (List ℕ) → Bool
unfolding strncmp_eq
is_duplicated name [] = false
is_duplicated name (other ∷ names) =
    strncmp_eq max_joint_name_length name other || is_duplicated name names

abbrev pub is_empty : List ℕ → Bool
is_empty [] = true
is_empty (x ∷ xs) = false

unfoldable pub find_axis : List ℕ → List (List ℕ) → ℕ → Option ℕ
unfolding strcmp_eq
find_axis name [] i = none
find_axis name (own ∷ names) i =
    let rest = find_axis name names (i + 1) in
    if not (is_empty own) && strcmp_eq own name then some i else rest

-- The group and the axis of a joint
unfoldable pub find_joint : List ℕ → List CtrlGroup → ℕ → Option (ℕ × ℕ)
find_joint name [] i = none
find_joint name (g ∷ gs) i =
    let rest = find_joint name gs (i + 1) in
    elim (find_axis name g.joint_names 0) [ none ↦ rest | some axis ↦ some (i, axis) ]

-- Whether a joint is found, and where; (0, 0) is never used.
abbrev pub is_found : Option (ℕ × ℕ) → Bool
is_found none = false
is_found (some place) = true

abbrev pub target : Option (ℕ × ℕ) → ℕ × ℕ
target none = (0, 0)
target (some place) = place

abbrev pub points_of : List CtrlGroup → ℕ → List JointMotionData
points_of [] i = []
points_of (g ∷ gs) zero = g.trajectory_to_process
points_of (g ∷ gs) (suc i) = points_of gs i

unfoldable pub set_points : List CtrlGroup → ℕ → List JointMotionData → List CtrlGroup
set_points [] i ds = []
set_points (g ∷ gs) zero ds = record g { trajectory_to_process = ds } ∷ gs
set_points (g ∷ gs) (suc i) ds = g ∷ set_points gs i ds

abbrev pub mark : (ℕ → Bool) → ℕ → ℕ → Bool
mark used i j = if i == j then true else used j

-- How far the assignment of the joints has come: the status, the groups, and which of them are used.
pub record Assigned : Type 0 where
  pub status : InitStatus
  pub groups : List CtrlGroup
  pub used : ℕ → Bool

abbrev pub is_ok : InitStatus → Bool
is_ok init_ok = true
is_ok _ = false

module _ (p : Platform) where
  -- The loop over the joints of the trajectory from the `joint`-th on.
  unfoldable pub assign_joints :
      Bool → List Point → List (List ℕ) → ℕ → List CtrlGroup → (ℕ → Bool) → Assigned
  assign_joints whole pts [] joint groups used = record {
    status = init_ok;
    groups = groups;
    used = used;
  }
  assign_joints whole pts (name ∷ names) joint groups used =
      let found = find_joint name groups 0 in
      let (group, axis) = target found in
      let converted = convert p.fpu whole joint axis 0 0 pts (points_of groups group) in
      let stored = set_points groups group converted.1 in
      let rest = assign_joints whole pts names (joint + 1) stored (mark used group) in
      if is_duplicated name names
      then record { status = init_duplicate_joint_name; groups = groups; used = used }
      else if not (is_found found)
      then record { status = init_invalid_jointname; groups = groups; used = used }
      else if is_ok converted.0
      then rest
      else record { status = converted.0; groups = stored; used = used }

  -- `x[4] += -x[1] + x[2]`
  abbrev pub compensate : List Double → List Double
  compensate x = set x 4 (p.fpu.add (at x 4) (p.fpu.add (p.fpu.neg (at x 1)) (at x 2)))

  abbrev pub compensate_point : JointMotionData → JointMotionData
  compensate_point d = record d { pos = compensate d.pos; vel = compensate d.vel }

  -- The first `n` points, changed
  abbrev pub map_first :
      ℕ → (JointMotionData → JointMotionData) → List JointMotionData → List JointMotionData
  map_first zero f ds = ds
  map_first (suc n) f [] = []
  map_first (suc n) f (d ∷ ds) = f d ∷ map_first n f ds

  abbrev pub first_point : CtrlGroup → JointMotionData
  first_point g = get_or g.trajectory_to_process 0 no_point

  -- What is set in a group before its start position is checked; `n` is the number of points.
  unfoldable pub prepare_group : ℕ → World p → CtrlGroup → CtrlGroup
  prepare_group n w g =
      let g' : CtrlGroup =
        (if g.is_baxis_slave
          then record g {
            trajectory_to_process = map_first n compensate_point g.trajectory_to_process;
          }
          else g) in
      record g' {
        prev_trajectory_iterator = some 0;
        time_leftover_ms = 0;
        q_time = (first_point g').time;
        prev_pulse_pos = (get_pulse_pos_cmd p.fpu p.ids p.api g' w).1;
      }

  -- The checks of the axes from the `i`-th on, `n` left: the start position, and the integer absolute
  -- value of the start velocity.
  unfoldable pub check_axes : CtrlGroup → List ℤ → ℕ → ℕ → InitStatus
  check_axes g pulses zero i = init_ok
  check_axes g pulses (suc n) i =
      let rest = check_axes g pulses n (i + 1) in
      if ltb (start_max_pulse_deviation p)
        (abs (get_or pulses i (pos 0) -ℤ get_or g.prev_pulse_pos i (pos 0)))
      then init_invalid_starting_pos
      else if p.fpu.lt (at g.max_speed i)
          (p.fpu.of_int (pos (abs (p.fpu.to_int (at (first_point g).vel i)))))
      then init_invalid_velocity
      else rest

  abbrev pub validate : JointMotionData → JointMotionData
  validate d = record d { valid = true }

  abbrev pub activate_group : ℕ → CtrlGroup → CtrlGroup
  activate_group n g = record g {
    trajectory_to_process = map_first n validate g.trajectory_to_process;
    trajectory_iterator = some 1;
    has_data_to_process = true;
  }

  -- The loop over the groups that are used, from the `i`-th on, `n` points each.
  unfoldable pub start_groups :
      ℕ → World p → (ℕ → Bool) → ℕ → List CtrlGroup → InitStatus × List CtrlGroup
  unfolding prepare_group check_axes
  start_groups n w used i [] = (init_ok, [])
  start_groups n w used i (g ∷ gs) =
      let rest = start_groups n w used (i + 1) gs in
      let g' = prepare_group n w g in
      let status = check_axes g' (convert_ros_units p.fpu g' (first_point g').pos) grp_axes_num 0 in
      if not (used i)
      then (rest.0, g ∷ rest.1)
      else if is_ok status
      then (rest.0, activate_group n g' ∷ rest.1)
      else (status, g' ∷ gs)

  -- From the assignment of the joints on.
  unfoldable pub start_assigned : ℕ → World p → Controller → Assigned → InitStatus × Controller
  unfolding start_groups
  start_assigned n w c a =
      let (status, groups) = start_groups n w a.used 0 a.groups in
      if not (is_ok a.status)
      then (a.status, record c { groups = a.groups })
      else if is_ok status
      then (init_ok, record c { groups = groups; all_groups_init_complete = true })
      else (status, record c { groups = map abort_group groups })

  -- Ros_MotionControl_Init
  unfoldable pub init : List (List ℕ) → List Point → Controller → World p → InitStatus × Controller
  unfolding check_sizes assign_joints start_assigned
  init names pts c w =
      let cleared : Controller = record c {
        all_groups_init_complete = false;
        groups = map clear_points c.groups;
      } in
      let assigned =
        assign_joints (is_motion_mode_trajectory c) pts names 0 cleared.groups (λ i. false) in
      if has_data_to_process c.groups
      then (init_already_in_motion, c)
      else if not (c.total_axes_count == length names)
      then (init_incomplete_jointlist, cleared)
      else if not (is_ok (check_sizes c.total_axes_count pts))
      then (check_sizes c.total_axes_count pts, cleared)
      else start_assigned (length pts) w cleared assigned

  -- Ros_MotionControl_InitTrajectory; MIN_NUMBER_OF_POINTS_PER_TRAJECTORY is 2.
  unfoldable pub init_trajectory :
      List (List ℕ) → List Point → Controller → World p → InitStatus × Controller
  unfolding init
  init_trajectory names pts c w =
      if ltb (length pts) 2 then (init_too_small, c) else init names pts c w

  -- Ros_MotionControl_InitPointQueue
  unfoldable pub init_point_queue :
      List (List ℕ) → Point → Controller → World p → InitStatus × Controller
  unfolding init
  init_point_queue names pt c w =
      let (status, c') = init names (pt ∷ []) c w in
      if is_ok status
      then (status, record c' { must_initialize_point_queue = false })
      else (status, c')
